-- ===== src/Text/Fits.antt =====
-- A text that is shorter than a page is printed whole.
use ms912x.Base.{
  ℕ, zero, suc, ◌+◌, ◌-◌, ◌*◌, ◌/◌, ◌%◌, ◌^◌, ◌≤◌, ◌<◌, ◌≡◌, refl, ap, inl, inr, false, Option,
  some, List, [], ◌∷◌, ◌++◌, arith, ltb, ◌==◌, Bool-cases, length, take, length-append, All,
}
use mathlib.Core.List.{append-nil, append_assoc}
use ms912x.Text.{
  page_size, Page, empty_page, print_all, digits, decimal, lld, hex_digit, hex_digits, hex, counter,
  hex_line,
}

-- The texts one behind the other.
abbrev pub joined : List (List ℕ) → List ℕ
joined [] = []
joined (text ∷ texts) = text ++ joined texts

take_whole : (n : ℕ) (xs : List ℕ) → length xs ≤ n → take n xs ≡ xs
take_whole zero [] le = refl
take_whole zero (x ∷ xs) le = absurd (omega arith)
take_whole (suc n) [] le = refl
take_whole (suc n) (x ∷ xs) le = ap (λ t. x ∷ t) (take_whole n xs (omega arith))

pub print_all_lem :
    (texts : List (List ℕ)) (done : List ℕ)
    → length done + length (joined texts) < page_size
    → print_all texts (record { text = done; len = length done })
      ≡ some (record { text = done ++ joined texts; len = length (done ++ joined texts) })
unfolding print_all
print_all_lem [] done lt = rw append-nil refl
print_all_lem (text ∷ texts) done lt =
    let room : ltb page_size (length done) ≡ false = ground (arith, lt) in
    let both = length-append text (joined texts) in
    let whole = take_whole (page_size - length done - 1) text (omega (arith, lt, both)) in
    let next =
      print_all_lem texts (done ++ text) (omega (arith, lt, both, length-append done text)) in
    let len : length done + length text ≡ length (done ++ text) =
      omega (arith, length-append done text) in
    rw (room, whole, len) (rw append_assoc at next)

length-digits : (k n : ℕ) → length (digits k n) ≤ k
unfolding digits
length-digits zero n = omega arith
length-digits (suc k) n = elim (Bool-cases (n == 0)) [
  | inl e ↦ rw e (omega arith)
  | inr e ↦ rw e (
      omega
        (arith, length-append (digits k (n / 10)) ((b'0' + n % 10) ∷ []), length-digits k (n / 10)))
]

pub length-decimal : (k n : ℕ) → length (decimal (suc k) n) ≤ suc k
length-decimal k n = elim (Bool-cases (n == 0)) [
  | inl e ↦ rw e (omega arith)
  | inr e ↦ rw e (length-digits (suc k) n)
]

pub length-lld : (n : ℕ) → length (lld n) ≤ 20
length-lld n = elim (Bool-cases (ltb n (2 ^ 63))) [
  | inl e ↦ rw e (omega (arith, length-decimal 18 n))
  | inr e ↦ rw e (omega (arith, length-decimal 18 (2 ^ 64 - n)))
]

length-hex_digits : (k n : ℕ) → length (hex_digits k n) ≤ k
unfolding hex_digits
length-hex_digits zero n = omega arith
length-hex_digits (suc k) n = elim (Bool-cases (n == 0)) [
  | inl e ↦ rw e (omega arith)
  | inr e ↦ rw e (
      omega (
        arith,
        length-hex_digits k (n / 16),
        length-append (hex_digits k (n / 16)) (hex_digit (n % 16) ∷ []),
      ))
]

pub length-hex : (n : ℕ) → length (hex n) ≤ 8
length-hex n = elim (Bool-cases (n == 0)) [
  | inl e ↦ rw e (omega arith)
  | inr e ↦ rw e (length-hex_digits 8 n)
]

pub length-counter : (label : List ℕ) (n : ℕ) → length (counter label n) ≤ length label + 21
length-counter label n =
    omega
      (arith, length-append label (lld n ++ 10 ∷ []), length-append (lld n) (10 ∷ []), length-lld n)

-- The page holds the whole text, with room for its terminator, and the result is its length.
abbrev pub IsWhole : List (List ℕ) → Option Page → Type 0
IsWhole lines o =
    (o ≡ some (record { text = joined lines; len = length (joined lines) }))
    × (length (joined lines) < page_size)

pub whole_lem :
    (lines : List (List ℕ))
    → length (joined lines) < page_size
    → IsWhole lines (print_all lines empty_page)
whole_lem lines lt = (print_all_lem lines [] (omega (arith, lt)), lt)

pub length-hex_line : (label : List ℕ) (n : ℕ) → length (hex_line label n) ≤ length label + 9
length-hex_line label n =
    omega
      (arith, length-append label (hex n ++ 10 ∷ []), length-append (hex n) (10 ∷ []), length-hex n)

-- Lines of bounded length.
abbrev pub AreShort : ℕ → List (List ℕ) → Type 0
AreShort k lines = All (λ line. length line ≤ k) lines

pub length-joined :
    (k : ℕ) (lines : List (List ℕ)) → AreShort k lines → length (joined lines) ≤ length lines * k
length-joined k [] all = omega arith
length-joined k (line ∷ lines) (le, all) =
    omega (arith, length-append line (joined lines), le, length-joined k lines all)
