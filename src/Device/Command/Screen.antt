-- ===== src/Device/Command/Screen.antt =====
-- src/usb_hal/usb_device.c: the byte that `ms9132_set_screen_enable` writes back.
use ms912x.Base.{
  ℕ, ◌-◌, ◌<◌, bit_and, bit_or, ◌≡◌, refl, ◌⊎◌, Bool, true, not, ◌&&◌, arith, ◌==◌, if◌then◌else◌,
}
use ms912x.Base.Bits.{passes, passes_lem}
use mathlib.Core.Bool.{xor}
use ms912x.Device.Command.{screen_reg, screen_byte}

-- Setting and clearing the bits of `m` in `d` leaves the others alone.
mask_test : ℕ → ℕ → Bool
mask_test m d =
    (bit_and (bit_or d m) (255 - m) == bit_and d (255 - m))
    && (bit_and (bit_or d m) m == m)
    && (bit_and (bit_and d (255 - m)) (255 - m) == bit_and d (255 - m))
    && (bit_and (bit_and d (255 - m)) m == 0)

masks_table :
    passes (λ d. mask_test 0x1 d && mask_test 0x2 d && mask_test 0x10 d && mask_test 0x80 d) 256
    ≡ true
unfolding passes mask_test
masks_table = refl

screen_reg_masks :
    (chip port : ℕ)
    → let m = (screen_reg chip port).mask in (m ≡ 0x1) ⊎ (m ≡ 0x2) ⊎ (m ≡ 0x10) ⊎ (m ≡ 0x80)
unfolding screen_reg
screen_reg_masks chip port = ground arith

mask_test_lem : (chip port d : ℕ) → d < 256 → mask_test (screen_reg chip port).mask d ≡ true
mask_test_lem chip port d h =
    let t = passes_lem d _ 256 masks_table h in ground (arith, screen_reg_masks chip port, t)

-- Whatever the chip and the port, the byte written back differs from the byte read in the mute bit
-- only, and that bit is set if the screen is enabled and the bit is an enable bit, or the screen is
-- disabled and the bit is a mute bit, and clear otherwise.
pub screen_byte_lem :
    (enable chip port d : ℕ)
    → d < 256
    → let r = screen_reg chip port in
      (bit_and (screen_byte enable r d) (255 - r.mask) ≡ bit_and d (255 - r.mask))
      × (bit_and (screen_byte enable r d) r.mask
          ≡ (if xor (not (enable == 0)) r.is_clear then r.mask else 0))
unfolding screen_byte mask_test
screen_byte_lem enable chip port d h = ground (arith, mask_test_lem chip port d h)
