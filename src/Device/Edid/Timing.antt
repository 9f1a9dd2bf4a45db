-- ===== src/Device/Edid/Timing.antt =====
-- src/usb_hal/usb_device.c: the detailed timing descriptor, against the EDID layout read back.
use ms912x.Base.{ℕ, ◌+◌, ◌*◌, ◌/◌, ◌%◌, ◌^◌, ◌≡◌, ◌<◌, List, get_or, arith}
use ms912x.Base.Bits.{
  bit_and_0xff, bit_and_0xf0, bit_and_0xf, bit_and_0xc0, bit_and_0x30, bit_and_0xc, bit_and_0x3,
}
use ms912x.Device.Edid.{DetailedTiming, detailed_timing_convert}

-- The fields of a descriptor as the EDID standard lays them out: a low byte and high bits packed
-- elsewhere.
pub record Layout : Type 0 where
  pub pixclk : ℕ
  pub hactive : ℕ
  pub hblank : ℕ
  pub vactive : ℕ
  pub vblank : ℕ
  pub hoffset : ℕ
  pub hsyncwidth : ℕ
  pub voffset : ℕ
  pub vsyncwidth : ℕ

abbrev pub layout : List ℕ → Layout
layout d = record {
  pixclk = get_or d 0 0 + get_or d 1 0 * 256;
  hactive = get_or d 2 0 + get_or d 4 0 / 16 * 256;
  hblank = get_or d 3 0 + get_or d 4 0 % 16 * 256;
  vactive = get_or d 5 0 + get_or d 7 0 / 16 * 256;
  vblank = get_or d 6 0 + get_or d 7 0 % 16 * 256;
  hoffset = get_or d 8 0 + get_or d 11 0 / 64 * 256;
  hsyncwidth = get_or d 9 0 + get_or d 11 0 / 16 % 4 * 256;
  voffset = get_or d 10 0 / 16 + get_or d 11 0 / 4 % 4 * 16;
  vsyncwidth = get_or d 10 0 % 16 + get_or d 11 0 % 4 * 16;
}

-- For fields of any size, what is read back from the descriptor is the remainder by 2 ^ 16 of the pixel
-- clock, by 2 ^ 12 of the active and blank sizes, and by 2 ^ 10 of the horizontal offset and sync
-- width: those that fit these widths are read back as they were, of the others the high bits are
-- lost.
pub layout-detailed_timing_convert :
    (p : DetailedTiming)
    → let l = layout (detailed_timing_convert p) in
      (l.pixclk ≡ p.pixclk % 2 ^ 16)
      × (l.hactive ≡ p.hactive % 2 ^ 12)
      × (l.hblank ≡ p.hblank % 2 ^ 12)
      × (l.vactive ≡ p.vactive % 2 ^ 12)
      × (l.vblank ≡ p.vblank % 2 ^ 12)
      × (l.hoffset ≡ p.hoffset % 2 ^ 10)
      × (l.hsyncwidth ≡ p.hsyncwidth % 2 ^ 10)
unfolding detailed_timing_convert
layout-detailed_timing_convert p = omega (
  arith, bit_and_0xff, bit_and_0xf0, bit_and_0xf, bit_and_0xc0, bit_and_0x30, bit_and_0xc,
  bit_and_0x3,
)

-- The vertical sync fields lose their bits 4 and 5: of an offset and a width below 64 the
-- descriptor keeps the remainders by 16.
pub layout_vertical_sync :
    (p : DetailedTiming)
    → p.voffset < 2 ^ 6
    → p.vsyncwidth < 2 ^ 6
    → let l = layout (detailed_timing_convert p) in
      (l.voffset ≡ p.voffset % 16) × (l.vsyncwidth ≡ p.vsyncwidth % 16)
unfolding detailed_timing_convert
layout_vertical_sync p ho hw = omega (
  arith, bit_and_0xff, bit_and_0xf0, bit_and_0xf, bit_and_0xc0, bit_and_0x30, bit_and_0xc,
  bit_and_0x3,
)
