-- ===== src/Device/Edid/Checksum.antt =====
-- src/usb_hal/usb_device.c: the checksum of an EDID block.
use ms912x.Base.{
  ℕ, zero, suc, ◌+◌, ◌-◌, ◌%◌, ◌^◌, ◌≡◌, ◌<◌, List, [], ◌∷◌, length, take, set, arith,
}
use ms912x.Device.Edid.{checksum_from, checksum_calc}

abbrev pub sum : List ℕ → ℕ
sum [] = 0
sum (x ∷ xs) = x + sum xs

checksum_from_lem :
    (acc : ℕ) (bs : List ℕ) → acc < 2 ^ 8 → ((checksum_from acc bs + sum bs) % 2 ^ 8 ≡ acc)
unfolding checksum_from
checksum_from_lem acc [] h = omega arith
checksum_from_lem acc (b ∷ bs) h =
    omega (arith, checksum_from_lem ((acc + 2 ^ 8 - b % 2 ^ 8) % 2 ^ 8) bs (omega arith))

sum-set_last : (xs : List ℕ) (n v : ℕ) → length xs ≡ suc n → sum (set xs n v) ≡ sum (take n xs) + v
sum-set_last [] n v e = absurd (omega arith)
sum-set_last (x ∷ []) zero v e = omega arith
sum-set_last (x ∷ y ∷ xs) zero v e = absurd (omega arith)
sum-set_last (x ∷ xs) (suc n) v e = omega (arith, sum-set_last xs n v (omega arith))

-- After `edid_checksum_calc` the 128 bytes of a block add up to a multiple of 256.
pub sum-checksum_calc : (buf : List ℕ) → length buf ≡ 0x80 → sum (checksum_calc buf) % 2 ^ 8 ≡ 0
unfolding checksum_calc
sum-checksum_calc buf e = omega (
  arith,
  sum-set_last buf 0x7f (checksum_from 0 (take 0x7f buf)) e,
  checksum_from_lem 0 (take 0x7f buf) (omega arith),
)
