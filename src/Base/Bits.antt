-- ===== src/Base/Bits.antt =====
-- `&` and `|` at variables: the mask laws that the code's masks need.
use Prim.Native.Nat.{
  ℕ, zero, suc, ◌+◌, ◌*◌, ◌/◌, ◌%◌, ◌≤◌, ◌<◌, min, bit_and, bit_or, digits, bit_and-bitwise,
}
use mathlib.Core.Path.{◌≡◌, refl}
use mathlib.Core.Bool.{Bool, true, ◌&&◌}
use native.Mathlib.Omega.{arith}
use mathlib.Core.Logic.{inl, inr}
use ms912x.Base.Tests.{◌==◌, ==_iff, ltb, Bool-cases}

-- `a & b` on `n` binary digits.
abbrev conj : ℕ → ℕ → ℕ → ℕ
conj n = digits (λ b. zero) min n

-- One digit more changes nothing once all of `a` is covered.
conj-suc : (n a b : ℕ) → a ≤ n → conj (suc n) a b ≡ conj n a b
conj-suc zero zero b h = refl
conj-suc (suc n) zero b h = refl
conj-suc zero (suc a) b h = absurd (omega arith)
conj-suc (suc n) (suc a) b h =
    let rest = conj-suc n (suc a / 2) (b / 2) (omega arith) in omega (arith, rest)

conj_enough : (n a b : ℕ) → a ≤ n → conj n a b ≡ bit_and a b
conj_enough zero a b h = let e : a ≡ 0 = omega arith in rw (e, bit_and-bitwise 0 b) refl
conj_enough (suc n) a b h = elim (Bool-cases (ltb n a)) [
  | inl top ↦ let e : a ≡ suc n = ground arith in rw (e, bit_and-bitwise (suc n) b) refl
  | inr below ↦ let le : a ≤ n = ground arith in rw (conj-suc n a b le) (conj_enough n a b le)
]

-- The lowest digit, and the others.
and_halves : (b a : ℕ) → bit_and a b ≡ min (a % 2) (b % 2) + 2 * bit_and (a / 2) (b / 2)
and_halves b zero =
    let whole = conj_enough 0 0 b (omega arith) in
    let half = conj_enough 0 0 (b / 2) (omega arith) in omega (arith, whole, half)
and_halves b (suc a) =
    let whole = conj_enough (suc a) (suc a) b (omega arith) in
    let half = conj_enough a (suc a / 2) (b / 2) (omega arith) in omega (arith, whole, half)

and_nothing : (n a : ℕ) → a ≤ n → bit_and a 0 ≡ 0
and_nothing zero a h = let e : a ≡ 0 = omega arith in rw e refl
and_nothing (suc n) a h = elim (Bool-cases (a == 0)) [
  | inl none' ↦ let e : a ≡ 0 = ground arith in rw e refl
  | inr some' ↦
      let half : a / 2 ≤ n = ground arith in
      omega (arith, and_halves 0 a, and_nothing n (a / 2) half)
]

pub bit_and-zero : (a : ℕ) → bit_and a 0 ≡ 0
bit_and-zero a = and_nothing a a (omega arith)

-- A mask of k ones keeps the remainder by 2 ^ k.
bit_and_1 : (a : ℕ) → bit_and a 0x1 ≡ a % 2
bit_and_1 a = omega (arith, and_halves 1 a, bit_and-zero (a / 2))

pub bit_and_0x3 : (a : ℕ) → bit_and a 0x3 ≡ a % 4
bit_and_0x3 a = omega (arith, and_halves 3 a, bit_and_1 (a / 2))

bit_and_0x7 : (a : ℕ) → bit_and a 0x7 ≡ a % 8
bit_and_0x7 a = omega (arith, and_halves 7 a, bit_and_0x3 (a / 2))

pub bit_and_0xf : (a : ℕ) → bit_and a 0xf ≡ a % 16
bit_and_0xf a = omega (arith, and_halves 0xf a, bit_and_0x7 (a / 2))

bit_and_0x3f : (a : ℕ) → bit_and a 0x3f ≡ a % 64
bit_and_0x3f a = omega (arith, and_halves 0x3f a, and_halves 0x1f (a / 2), bit_and_0xf (a / 2 / 2))

pub bit_and_0xff : (a : ℕ) → bit_and a 0xff ≡ a % 256
bit_and_0xff a = omega (arith, and_halves 0xff a, and_halves 0x7f (a / 2), bit_and_0x3f (a / 2 / 2))

bit_and_0x3ff : (a : ℕ) → bit_and a 0x3ff ≡ a % 1024
bit_and_0x3ff a =
    omega (arith, and_halves 0x3ff a, and_halves 0x1ff (a / 2), bit_and_0xff (a / 2 / 2))

bit_and_0x7ff : (a : ℕ) → bit_and a 0x7ff ≡ a % 2048
bit_and_0x7ff a = omega (arith, and_halves 0x7ff a, bit_and_0x3ff (a / 2))

-- The alignment masks of the frame update.
pub bit_and_0xffe : (a : ℕ) → bit_and a 0xffe ≡ a / 2 % 2048 * 2
bit_and_0xffe a = omega (arith, and_halves 0xffe a, bit_and_0x7ff (a / 2))

pub bit_and_0xffc : (a : ℕ) → bit_and a 0xffc ≡ a / 4 % 1024 * 4
bit_and_0xffc a =
    omega (arith, and_halves 0xffc a, and_halves 0x7fe (a / 2), bit_and_0x3ff (a / 2 / 2))

-- Masks that keep the high bits of a nibble or of a byte.
pub bit_and_0xc : (a : ℕ) → bit_and a 0xc ≡ a / 4 % 4 * 4
bit_and_0xc a = omega (arith, and_halves 0xc a, and_halves 6 (a / 2), bit_and_0x3 (a / 2 / 2))

pub bit_and_0x30 : (a : ℕ) → bit_and a 0x30 ≡ a / 16 % 4 * 16
bit_and_0x30 a = omega (arith, and_halves 0x30 a, and_halves 0x18 (a / 2), bit_and_0xc (a / 2 / 2))

pub bit_and_0xc0 : (a : ℕ) → bit_and a 0xc0 ≡ a / 64 % 4 * 64
bit_and_0xc0 a = omega (arith, and_halves 0xc0 a, and_halves 0x60 (a / 2), bit_and_0x30 (a / 2 / 2))

bit_and_0x3c : (a : ℕ) → bit_and a 0x3c ≡ a / 4 % 16 * 4
bit_and_0x3c a = omega (arith, and_halves 0x3c a, and_halves 0x1e (a / 2), bit_and_0xf (a / 2 / 2))

pub bit_and_0xf0 : (a : ℕ) → bit_and a 0xf0 ≡ a / 16 % 16 * 16
bit_and_0xf0 a = omega (arith, and_halves 0xf0 a, and_halves 0x78 (a / 2), bit_and_0x3c (a / 2 / 2))

bit_and_0xff0 : (a : ℕ) → bit_and a 0xff0 ≡ a / 16 % 256 * 16
bit_and_0xff0 a = omega (
  arith,
  and_halves 0xff0 a,
  and_halves 0x7f8 (a / 2),
  and_halves 0x3fc (a / 2 / 2),
  and_halves 0x1fe (a / 2 / 2 / 2),
  bit_and_0xff (a / 2 / 2 / 2 / 2),
)

pub bit_and_0xff00 : (a : ℕ) → bit_and a 0xff00 ≡ a / 256 % 256 * 256
bit_and_0xff00 a = omega (
  arith,
  and_halves 0xff00 a,
  and_halves 0x7f80 (a / 2),
  and_halves 0x3fc0 (a / 2 / 2),
  and_halves 0x1fe0 (a / 2 / 2 / 2),
  bit_and_0xff0 (a / 2 / 2 / 2 / 2),
)

-- A test of all numbers under a bound, by evaluation.
unfoldable pub passes : (ℕ → Bool) → ℕ → Bool
passes test zero = true
passes test (suc top) = passes test top && test top

pub passes_lem :
    (x : ℕ) (test : ℕ → Bool) (top : ℕ) → passes test top ≡ true → x < top → test x ≡ true
unfolding passes
passes_lem x test zero h below = absurd (omega arith)
passes_lem x test (suc top) h below = ground (arith, passes_lem x test top)

nibbles_table : passes (λ x. bit_or (x / 16 * 16) (x % 16) == x) 256 ≡ true
unfolding passes
nibbles_table = refl

-- Two nibbles joined by `|`.
pub bit_or_nibbles : (a b : ℕ) → a < 16 → b < 16 → bit_or (a * 16) b ≡ a * 16 + b
bit_or_nibbles a b ha hb =
    let e : (a * 16 + b) / 16 ≡ a = omega arith in
    let f : (a * 16 + b) % 16 ≡ b = omega arith in
    let t = (==_iff _ _).0 (passes_lem (a * 16 + b) _ 256 nibbles_table (omega arith)) in
    let u = rw e at t in rw f at u
