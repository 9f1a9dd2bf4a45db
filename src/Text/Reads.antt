-- ===== src/Text/Reads.antt =====
-- The numbers of a text, read back.
use ms912x.Base.{
  ℕ, zero, suc, ◌+◌, ◌-◌, ◌*◌, ◌/◌, ◌%◌, ◌^◌, ◌<◌, ◌≡◌, refl, ap, ◌∙◌, ◌≢◌, inl, inr, true, false,
  Option, none, some, List, [], ◌∷◌, ◌++◌, arith, ltb, ◌==◌, if◌then◌else◌, ==_iff, Bool-cases,
}
use mathlib.Core.List.{append_assoc}
use ms912x.Text.{digits, decimal, lld, counter}

-- The numbers between a colon and the end of its line; `at_` is the number that is being read.
unfoldable pub numbers : Option ℕ → List ℕ → List ℕ
numbers at_ [] = []
numbers none (c ∷ cs) = numbers (if c == b':' then some 0 else none) cs
numbers (some n) (c ∷ cs) =
    let rest = numbers (if c == 10 then none else some (n * 10 + (c - b'0'))) cs in
    if c == 10 then n ∷ rest else rest

-- A colon ends the label, and there is no other in it.
abbrev pub IsLabel : List ℕ → Type 0
IsLabel [] = ⊥
IsLabel (c ∷ []) = c ≡ b':'
IsLabel (c ∷ (c' ∷ cs)) = (c ≢ b':') × IsLabel (c' ∷ cs)

numbers-label :
    (label rest : List ℕ) → IsLabel label → numbers none (label ++ rest) ≡ numbers (some 0) rest
unfolding numbers
numbers-label [] rest h = absurd h
numbers-label (c ∷ []) rest h = ground (arith, h)
numbers-label (c ∷ (c' ∷ cs)) rest (ne, h) =
    let other : (c == b':') ≡ false = ground (arith, ne) in
    rw (numbers, other) (numbers-label (c' ∷ cs) rest h)

abbrev limit : ℕ → ℕ
limit zero = 1
limit (suc k) = 10 * limit k

numbers-digit :
    (n d : ℕ) (rest : List ℕ)
    → d < 10
    → numbers (some n) ((b'0' + d) ∷ rest) ≡ numbers (some (n * 10 + d)) rest
unfolding numbers
numbers-digit n d rest lt =
    let other : (b'0' + d == 10) ≡ false = ground (arith, lt) in
    let value : b'0' + d - b'0' ≡ d = omega arith in rw (other, value) refl

numbers-digits :
    (k n : ℕ) (rest : List ℕ)
    → n < limit k
    → numbers (some 0) (digits k n ++ rest) ≡ numbers (some n) rest
unfolding digits
numbers-digits zero n rest lt = let z : n ≡ 0 = omega arith in rw z refl
numbers-digits (suc k) n rest lt = elim (Bool-cases (n == 0)) [
  | inl none' ↦ let z : n ≡ 0 = (==_iff n 0).0 none' in rw z refl
  | inr some' ↦
      let d : n % 10 < 10 = omega arith in
      let z : n / 10 * 10 + n % 10 ≡ n = omega arith in
      rw some' (
        ap (numbers (some 0)) (append_assoc (digits k (n / 10)) ((b'0' + n % 10) ∷ []) rest)
        ∙ numbers-digits k (n / 10) ((b'0' + n % 10) ∷ rest) (omega arith)
        ∙ numbers-digit (n / 10) (n % 10) rest d
        ∙ ap (λ m. numbers (some m) rest) z)
]

numbers-decimal :
    (n : ℕ) (rest : List ℕ)
    → n < limit 19
    → numbers (some 0) (decimal 19 n ++ rest) ≡ numbers (some n) rest
unfolding numbers
numbers-decimal n rest lt = elim (Bool-cases (n == 0)) [
  | inl none' ↦ let z : n ≡ 0 = (==_iff n 0).0 none' in rw z refl
  | inr some' ↦ rw some' (numbers-digits 19 n rest lt)
]

-- A line of a counter is read as its value.
pub numbers-counter :
    (label : List ℕ) (n : ℕ) (rest : List ℕ)
    → IsLabel label
    → n < 2 ^ 63
    → numbers none (counter label n ++ rest) ≡ n ∷ numbers none rest
unfolding numbers
numbers-counter label n rest h lt =
    let small : ltb n (2 ^ 63) ≡ true = ground (arith, lt) in
    let written : lld n ≡ decimal 19 n = rw small refl in
    ap (numbers none) (append_assoc label (lld n ++ 10 ∷ []) rest)
    ∙ numbers-label label ((lld n ++ 10 ∷ []) ++ rest) h
    ∙ ap (numbers (some 0)) (append_assoc (lld n) (10 ∷ []) rest)
    ∙ ap (λ t. numbers (some 0) (t ++ 10 ∷ rest)) written
    ∙ numbers-decimal n (10 ∷ rest) (omega (arith, lt))
