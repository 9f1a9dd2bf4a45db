-- ===== src/Hal/Frame/Header.antt =====
-- src/usb_hal/usb_hal_interface.c: `usb_hal_frame_header_set` packs four 12-bit numbers, and the colour
-- conversion stays in the range of BT.601.
use ms912x.Base.{ℕ, ◌+◌, ◌*◌, ◌/◌, ◌%◌, ◌^◌, ◌≤◌, ◌<◌, bit_and, bit_or, ◌≡◌, List, [], ◌∷◌, arith}
use ms912x.Base.Int.{ℤ, pos, negsuc, ◌+ℤ◌, ◌≤ℤ◌, shr_ℤ, pos_part, neg_part, +ℤ_parts}
use ms912x.Base.Bits.{bit_and_0xf, bit_and_0xff, bit_or_nibbles}
use ms912x.Hal.Frame.{frame_header, Pixel, luma}

-- Two numbers' nibbles in one byte.
nibbles :
    (a b : ℕ)
    → bit_or (bit_and a 0x0f * 2 ^ 4) (bit_and (b / 2 ^ 8) 0x0f) ≡ a % 16 * 16 + b / 256 % 16
nibbles a b =
    rw (bit_and_0xf a, bit_and_0xf (b / 2 ^ 8))
      (bit_or_nibbles (a % 16) (b / 256 % 16) (omega arith) (omega arith))

-- The header in arithmetic.
pub frame_header_lem :
    (x y width height : ℕ)
    → frame_header x y width height
      ≡ 0xff
        ∷ 0x00
        ∷ (x / 16 % 256)
        ∷ (x % 16 * 16 + y / 256 % 16)
        ∷ (y % 256)
        ∷ (width / 16 % 256)
        ∷ (width % 16 * 16 + height / 256 % 16)
        ∷ (height % 256)
        ∷ []
unfolding frame_header
frame_header_lem x y width height = rw (
  nibbles x y,
  nibbles width height,
  bit_and_0xff (x / 2 ^ 4),
  bit_and_0xff y,
  bit_and_0xff (width / 2 ^ 4),
  bit_and_0xff height,
)

-- How the chip reads a header: four 12-bit fields after the two marker bytes.
abbrev pub decode_header : List ℕ → List ℕ
decode_header (m ∷ z ∷ a ∷ b ∷ c ∷ d ∷ e ∷ f ∷ rest) =
    (a * 16 + b / 16) ∷ (b % 16 * 256 + c) ∷ (d * 16 + e / 16) ∷ (e % 16 * 256 + f) ∷ []
decode_header other = []

-- For a rectangle below 4096 in each number, the header decodes to the four numbers that it was made
-- from.
pub decode-frame_header :
    (x y width height : ℕ)
    → x < 4096
    → y < 4096
    → width < 4096
    → height < 4096
    → decode_header (frame_header x y width height) ≡ x ∷ y ∷ width ∷ height ∷ []
decode-frame_header x y width height hx hy hw hh = rw (frame_header_lem x y width height) (
    let e1 : x / 16 % 256 * 16 + (x % 16 * 16 + y / 256 % 16) / 16 ≡ x = omega arith in
    let e2 : (x % 16 * 16 + y / 256 % 16) % 16 * 256 + y % 256 ≡ y = omega arith in
    let e3 : width / 16 % 256 * 16 + (width % 16 * 16 + height / 256 % 16) / 16 ≡ width =
      omega arith in
    let e4 : (width % 16 * 16 + height / 256 % 16) % 16 * 256 + height % 256 ≡ height =
      omega arith in
    rw (e1, e2, e3, e4))

-- For a pixel of three bytes, the luma lies in 16 .. 234.
luma_range :
    (p : Pixel) → p.r < 256 → p.g < 256 → p.b < 256 → (pos 16 ≤ℤ luma p) × (luma p ≤ℤ pos 235)
unfolding luma
luma_range p r g b = (omega arith, omega arith)

-- A number shifted right by ten and offset by 128, from its bounds.
offset_range :
    (z : ℤ)
    → neg_part z ≤ 114750
    → pos_part z ≤ 114750
    → (pos 15 ≤ℤ shr_ℤ z 10 +ℤ pos 128) × (shr_ℤ z 10 +ℤ pos 128 ≤ℤ pos 240)
offset_range (pos n) h k = (
  omega (arith, +ℤ_parts (pos (n / 2 ^ 10)) (pos 128)),
  omega (arith, +ℤ_parts (pos (n / 2 ^ 10)) (pos 128)),
)
offset_range (negsuc n) h k = (
  omega (arith, +ℤ_parts (negsuc (n / 2 ^ 10)) (pos 128)),
  omega (arith, +ℤ_parts (negsuc (n / 2 ^ 10)) (pos 128)),
)
