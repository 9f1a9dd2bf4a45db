-- ===== src/Drm/CustomMode/Parse.antt =====
-- src/drm/msdisp_usb_drv.c: the parameter in its documented form is read as it is written.
use mathlib.Core.List.{append-nil, append_assoc}
use ms912x.Base.{
  ℕ, zero, suc, ◌+◌, ◌-◌, ◌*◌, ◌/◌, ◌%◌, ◌^◌, ◌<◌, ◌≡◌, refl, ap, ◌∙◌, inl, inr, true, false, some,
  List, [], ◌∷◌, ◌++◌, arith, ◌==◌, ==_iff, Bool-cases, All, All-append,
}
use ms912x.Drm.CustomMode.{
  CustomMode, is_digit, is_space, skip_spaces, read_digits, read_int, expect, scan_mode, pieces,
}
use ms912x.Drm.CustomMode.Print.{digits, print_mode}

abbrev limit : ℕ → ℕ
limit zero = 1
limit (suc k) = 10 * limit k

read_digits_lem :
    (k n : ℕ) (r : List ℕ) → n < limit k → read_digits 0 (digits k n ++ r) ≡ read_digits n r
unfolding digits read_digits
read_digits_lem zero n r lt = let z : n ≡ 0 = omega arith in rw z refl
read_digits_lem (suc k) n r lt = elim (Bool-cases (n == 0)) [
  | inl none' ↦ let z : n ≡ 0 = (==_iff n 0).0 none' in rw z refl
  | inr some' ↦
      let d : is_digit (b'0' + n % 10) ≡ true = ground arith in
      let z : n / 10 * 10 + (b'0' + n % 10 - b'0') ≡ n = omega arith in
      rw some' (
        ap (read_digits 0) (append_assoc (digits k (n / 10)) ((b'0' + n % 10) ∷ []) r)
        ∙ read_digits_lem k (n / 10) ((b'0' + n % 10) ∷ r) (omega arith)
        ∙ rw (d, z) refl)
]

digits_zero : (k : ℕ) → digits k 0 ≡ []
unfolding digits
digits_zero zero = refl
digits_zero (suc k) = refl

first_digit :
    (k n : ℕ)
    → 0 < n
    → n < limit k
    → (c : ℕ) × ((t : List ℕ) × ((digits k n ≡ c ∷ t) × (is_digit c ≡ true)))
unfolding digits
first_digit zero n pos' lt = absurd (omega arith)
first_digit (suc k) n pos' lt =
    let some' : (n == 0) ≡ false = ground arith in
    let d : is_digit (b'0' + n % 10) ≡ true = ground arith in
    elim (Bool-cases (n / 10 == 0)) [
      | inl last ↦
          let z : n / 10 ≡ 0 = (==_iff _ _).0 last in
          (b'0' + n % 10, ([], (rw (some', z, digits_zero k) refl, d)))
      | inr more ↦
          let (c, (t, (e, dc))) = first_digit k (n / 10) (ground arith) (omega arith) in
          (c, (t ++ (b'0' + n % 10) ∷ [], (rw (some', e) refl, dc)))
    ]

-- A text that does not go on with a digit.
abbrev Stops : List ℕ → Type 0
Stops [] = Unit {0}
Stops (c ∷ cs) = is_digit c ≡ false

stops_lem : (n : ℕ) (r : List ℕ) → Stops r → read_digits n r ≡ (n, r)
unfolding read_digits
stops_lem n [] s = refl
stops_lem n (c ∷ cs) s = rw s refl

starts_lem :
    (c : ℕ) (cs : List ℕ)
    → is_digit c ≡ true
    → read_int (c ∷ cs) ≡ some ((read_digits 0 (c ∷ cs)).0 % 2 ^ 32, (read_digits 0 (c ∷ cs)).1)
unfolding read_int skip_spaces
starts_lem c cs d =
    let space : is_space c ≡ false = ground arith in
    let minus : (c == b'-') ≡ false = ground arith in rw (space, minus, d) refl

read_int_lem :
    (k n : ℕ) (r : List ℕ)
    → 0 < n
    → n < limit k
    → n < 2 ^ 32
    → Stops r
    → read_int (digits k n ++ r) ≡ some (n, r)
read_int_lem k n r pos' lt small s =
    let (c, (t, (e, d))) = first_digit k n pos' lt in
    let all : read_digits 0 (digits k n ++ r) ≡ (n, r) =
      read_digits_lem k n r lt ∙ stops_lem n r s in
    let all' : read_digits 0 (c ∷ (t ++ r)) ≡ (n, r) = rw e at all in
    let z : n % 2 ^ 32 ≡ n = omega arith in rw e (starts_lem c (t ++ r) d ∙ rw (all', z) refl)

-- A mode whose fields are positive and fit their types.
pub record IsWritten (m : CustomMode) : Type 0 where
  pub width : (0 < m.width) × (m.width < 2 ^ 16)
  pub height : (0 < m.height) × (m.height < 2 ^ 16)
  pub rate : (0 < m.rate) × (m.rate < 2 ^ 8)
  pub vic : (0 < m.vic) × (m.vic < 2 ^ 8)

expect_lem : (a : ℕ) (cs : List ℕ) → expect a (a ∷ cs) ≡ some cs
unfolding expect
expect_lem a cs = let z : (a == a) ≡ true = ground arith in rw z refl

pub scan-print_mode :
    (m : CustomMode)
    → IsWritten m
    → scan_mode (print_mode m) ≡ some (m.vic, m.width, m.height, m.rate)
unfolding scan_mode print_mode
scan-print_mode m v =
    let rate_text = digits 3 m.rate in
    let height_text = digits 5 m.height ++ (b'@' ∷ rate_text) in
    let width_text = digits 5 m.width ++ (b'x' ∷ height_text) in
    let a =
      read_int_lem 3 m.vic (b'_' ∷ width_text) v.vic.0 (omega (arith, v.vic)) (omega (arith, v.vic))
        refl in
    let b =
      read_int_lem 5 m.width (b'x' ∷ height_text) v.width.0 (omega (arith, v.width))
        (omega (arith, v.width)) refl in
    let c =
      read_int_lem 5 m.height (b'@' ∷ rate_text) v.height.0 (omega (arith, v.height))
        (omega (arith, v.height)) refl in
    let d = read_int_lem 3 m.rate [] v.rate.0 (omega (arith, v.rate)) (omega (arith, v.rate)) tt in
    let d' : read_int rate_text ≡ some (m.rate, []) = rw append-nil at d in
    rw
      (
        a,
        expect_lem b'_' width_text,
        b,
        expect_lem b'x' height_text,
        c,
        expect_lem b'@' rate_text,
        d',
      )
      refl

abbrev pub NoComma : List ℕ → Type 0
NoComma xs = All (λ c. (c == b',') ≡ false) xs

pub digits-NoComma : (k n : ℕ) → NoComma (digits k n)
unfolding digits
digits-NoComma zero n = tt
digits-NoComma (suc k) n = elim (Bool-cases (n == 0)) [
  | inl none' ↦ rw none' tt
  | inr some' ↦
      rw some' (All-append _ (digits k (n / 10)) _ (digits-NoComma k (n / 10)) (ground arith, tt))
]

pub pieces_more : (xs r : List ℕ) → NoComma xs → pieces (xs ++ (b',' ∷ r)) ≡ xs ∷ pieces r
unfolding pieces
pieces_more [] r h = refl
pieces_more (x ∷ xs) r h = rw (h.0, pieces_more xs r h.1) refl

pub pieces_last : (xs : List ℕ) → NoComma xs → pieces xs ≡ xs ∷ []
unfolding pieces
pieces_last [] h = refl
pieces_last (x ∷ xs) h = rw (h.0, pieces_last xs h.1) refl
