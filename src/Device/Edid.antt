-- ===== src/Device/Edid.antt =====
-- src/usb_hal/usb_device.c: the EDID block handed to DRM, and the detailed timings of the flash that
-- the driver writes into it.
pub mod Tables
pub mod Checksum
pub mod Timing
pub mod Update
pub mod Answer
use ms912x.Base.{
  ℕ, zero, suc, ◌+◌, ◌-◌, ◌*◌, ◌/◌, ◌%◌, ◌^◌, ◌==◌, ◌&&◌, ◌||◌, Bool, true, false, Option, none,
  some, List, [], ◌∷◌, ◌++◌, ltb, length, take, drop, set, replicate, bit_and, min, if◌then◌else◌,
}
use ms912x.Base.Int.{ℤ}
use ms912x.Usb.{Kernel, M, ◌>>=◌, pure, success, e_inval}
use ms912x.Device.Xdata.{read_xdata}
use ms912x.Device.Command.{
  port_cvbs, port_svideo, port_ypbpr, port_cvbs_svideo, sdram_2m, sdram_none,
}
use Tables.{edid_ypbpr, edid_vga, edid_vga_usb3, edid_vga_cvbs}

-- `struct misctiming`, as the flash holds it.
pub record MiscTiming : Type 0 where
  pub vic : ℕ
  pub polarity : ℕ
  pub htotal : ℕ
  pub vtotal : ℕ
  pub hactive : ℕ
  pub vactive : ℕ
  pub pixclk : ℕ
  pub vfreq : ℕ
  pub hoffset : ℕ
  pub voffset : ℕ
  pub hsyncwidth : ℕ
  pub vsyncwidth : ℕ

-- `struct detailed_timing`.
pub record DetailedTiming : Type 0 where
  pub pixclk : ℕ
  pub hactive : ℕ
  pub hblank : ℕ
  pub vactive : ℕ
  pub vblank : ℕ
  pub hoffset : ℕ
  pub hsyncwidth : ℕ
  pub voffset : ℕ
  pub vsyncwidth : ℕ
  pub h_image_size : ℕ
  pub v_image_size : ℕ
  pub hborder : ℕ
  pub vborder : ℕ
  pub polarity : ℕ

-- A difference stored in a `u16`.
abbrev pub sub_u16 : ℕ → ℕ → ℕ
sub_u16 a b = (a + 2 ^ 16 - b) % 2 ^ 16

pub std_timing_convert : MiscTiming → DetailedTiming
std_timing_convert t = record {
  pixclk = t.pixclk;
  hactive = t.hactive;
  hblank = sub_u16 t.htotal t.hactive;
  vactive = t.vactive;
  vblank = sub_u16 t.vtotal t.vactive;
  hoffset = sub_u16 (sub_u16 t.htotal t.hactive) t.hoffset;
  hsyncwidth = t.hsyncwidth;
  voffset = sub_u16 (sub_u16 t.vtotal t.vactive) t.voffset;
  vsyncwidth = t.vsyncwidth;
  h_image_size = 0;
  v_image_size = 0;
  hborder = 0;
  vborder = 0;
  polarity = t.polarity;
}

-- A sum stored in a `u8`.
abbrev u8 : ℕ → ℕ
u8 n = n % 2 ^ 8

-- `~x & 0x80` is 0x80 without the bit of `x`.
pub detailed_timing_convert : DetailedTiming → List ℕ
detailed_timing_convert p =
    bit_and p.pixclk 0xff
    ∷ u8 (p.pixclk / 2 ^ 8)
    ∷ bit_and p.hactive 0xff
    ∷ bit_and p.hblank 0xff
    ∷ u8 (bit_and (p.hactive / 2 ^ 4) 0xf0 + bit_and (p.hblank / 2 ^ 8) 0x0f)
    ∷ bit_and p.vactive 0xff
    ∷ bit_and p.vblank 0xff
    ∷ u8 (bit_and (p.vactive / 2 ^ 4) 0xf0 + bit_and (p.vblank / 2 ^ 8) 0x0f)
    ∷ bit_and p.hoffset 0xff
    ∷ bit_and p.hsyncwidth 0xff
    ∷ u8 (bit_and (p.voffset * 2 ^ 4) 0xf0 + bit_and (p.vsyncwidth / 2 ^ 0) 0x0f)
    ∷ u8 (
        bit_and (p.hoffset / 2 ^ 2) 0xc0
        + bit_and (p.hsyncwidth / 2 ^ 4) 0x30
        + bit_and (p.voffset / 2 ^ 6) 0x0c
        + bit_and (p.vsyncwidth / 2 ^ 8) 0x03)
    ∷ bit_and p.h_image_size 0xff
    ∷ bit_and p.v_image_size 0xff
    ∷ u8 (bit_and (p.h_image_size / 2 ^ 4) 0xf0 + bit_and (p.v_image_size / 2 ^ 8) 0x0f)
    ∷ bit_and p.hborder 0xff
    ∷ bit_and p.vborder 0xff
    ∷ u8 ((0x80 - bit_and (p.polarity * 2 ^ 7) 0x80) + 0x18 + bit_and p.polarity 0x06)
    ∷ []

-- `checksum -= buf[i]` on a `u8`, over the bytes left.
pub checksum_from : ℕ → List ℕ → ℕ
checksum_from acc [] = acc
checksum_from acc (b ∷ bs) = checksum_from ((acc + 2 ^ 8 - b % 2 ^ 8) % 2 ^ 8) bs

pub checksum_calc : List ℕ → List ℕ
unfolding checksum_from
checksum_calc buf = set buf 0x7f (checksum_from 0 (take 0x7f buf))

abbrev pub long_descr_len : ℕ
long_descr_len = 18

abbrev pub detailed_timing_offset : ℕ
detailed_timing_offset = 0x36

-- The first `n` timings as descriptors.
pub descriptors : ℕ → List MiscTiming → List ℕ
unfolding std_timing_convert detailed_timing_convert
descriptors zero ts = []
descriptors (suc n) [] = []
descriptors (suc n) (t ∷ ts) = detailed_timing_convert (std_timing_convert t) ++ descriptors n ts

-- `backup`: the descriptors, and zeros up to four of them.
abbrev pub backup : ℕ → List MiscTiming → List ℕ
backup n ts = take 72 (descriptors n ts ++ replicate 72 0)

pub update_detailed_timing : List ℕ → List MiscTiming → ℕ → ℕ → List ℕ
unfolding descriptors checksum_calc
update_detailed_timing data' timing_append detail_count block =
    if ltb 0 detail_count && ltb block 1
    then checksum_calc (
        take detailed_timing_offset data'
        ++ (backup (if ltb 2 detail_count then 2 else detail_count) timing_append
            ++ drop (detailed_timing_offset + 72) data'))
    else data'

-- The ports that have one block only.
abbrev pub is_analog : ℕ → Bool
is_analog port_type =
    port_type == port_ypbpr
    || port_type == port_cvbs
    || port_type == port_cvbs_svideo
    || port_type == port_svideo

-- `memcpy(buf, table, len)`.
abbrev pub copy_into : List ℕ → List ℕ → ℕ → List ℕ
copy_into buf table len = take len table ++ drop len buf

-- Where the block comes from: a table of the driver, or the chip.
unfoldable pub edid_table : Bool → ℕ → ℕ → Option (List ℕ)
edid_table super_speed port_type sdram_type =
    if port_type == port_ypbpr
    then some edid_ypbpr
    else if port_type == port_cvbs
        || port_type == port_cvbs_svideo
        || port_type == port_svideo
        || sdram_type == sdram_2m
    then some edid_vga_cvbs
    else if sdram_type == sdram_none
    then some (if super_speed then edid_vga_usb3 else edid_vga)
    else none

-- The block into the caller's buffer, from a table or from the chip, then the timings into it. Both
-- return the code and the buffer afterwards.
pub fill_block :
    Kernel → List MiscTiming → ℕ → ℕ → List ℕ → ℕ → Option (List ℕ) → M (Option ℤ × List ℕ)
fill_block k timing detail_count block buf len (some table) =
    pure (some success, update_detailed_timing (copy_into buf table len) timing detail_count block)
fill_block k timing detail_count block buf len none = do
  (ret, bytes) ← read_xdata k ((0xc000 + block * 0x80) % 2 ^ 16) (len % 2 ^ 16)
  pure (ret, update_detailed_timing (bytes ++ drop (length bytes) buf) timing detail_count block)

pub get_edid : Kernel → Bool → List MiscTiming → ℕ → ℕ → ℕ → ℕ → List ℕ → ℕ → M (Option ℤ × List ℕ)
get_edid k super_speed timing detail_count port_type sdram_type block buf len =
    if is_analog port_type && ltb 0 block
    then pure (some e_inval, buf)
    else if (sdram_type == sdram_2m || sdram_type == sdram_none) && ltb 0 block
    then pure (some e_inval, buf)
    else fill_block k timing detail_count block buf len
        (edid_table super_speed port_type sdram_type)
