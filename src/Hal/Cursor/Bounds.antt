-- ===== src/Hal/Cursor/Bounds.antt =====
-- src/usb_hal/usb_hal_interface.c: the box of a cursor's visible pixels lies in its picture.
use ms912x.Base.{
  ℕ, zero, suc, ◌+◌, ◌-◌, ◌*◌, ◌≤◌, ◌<◌, ◌≡◌, refl, ◌⊎◌, inl, inr, Bool, true, false, Option, none,
  some, List, arith, leb, if◌then◌else◌, Bool-cases, length, get_elem?, get_elem?-lt,
}
use ms912x.Usb.{success}
use ms912x.Hal.Dev.{Dev, Cursor}
use ms912x.Hal.Frame.Safety.{FitsCursor, Returns, returned, Returns-bind}
use ms912x.Hal.Request.{is_enabled}
use ms912x.Hal.Cursor.{
  find_valid_pixman, scan_up, scan_down, Box, rows_of, box_of, with_box, cursor_set, e_perm,
}

-- The pixel at byte `i` has an alpha below the threshold.
abbrev pub Dark : List ℕ → ℕ → Type 0
Dark buf i = (a : ℕ) → get_elem? buf (i + 3) ≡ some a → a < 64

-- The line of `n` pixels from `at_` on lies in the buffer.
abbrev pub Inside : List ℕ → ℕ → ℕ → ℕ → Type 0
Inside buf n at_ stride = (at_ + n * stride + 4 ≤ length buf + stride) × (4 ≤ stride)

abbrev pub Yes : {A : Type 0} → A → Type 0
Yes a = a ≡ a

pub find_lem :
    (n : ℕ) (buf : List ℕ) (at_ stride : ℕ)
    → Inside buf n at_ stride
    → Returns Yes (find_valid_pixman n buf at_ stride)
unfolding find_valid_pixman
find_lem zero buf at_ stride h = returned refl
find_lem (suc n) buf at_ stride h =
    let (a, e) = get_elem?-lt buf (at_ + 3) (grind arith) in
    elim (Bool-cases (leb 64 a)) [
      | inl v ↦ rw (e, v) (returned refl)
      | inr v ↦ rw (e, v) (find_lem n buf (at_ + stride) stride (grind arith))
    ]

pub next_index : (at_ j stride : ℕ) → at_ + suc j * stride ≡ at_ + stride + j * stride
next_index at_ j stride = grind arith

find-Dark :
    (n : ℕ) (buf : List ℕ) (at_ stride : ℕ)
    → Inside buf n at_ stride
    → ((j : ℕ) → j < n → Dark buf (at_ + j * stride))
    → find_valid_pixman n buf at_ stride ≡ some false
unfolding find_valid_pixman
find-Dark zero buf at_ stride h dark = refl
find-Dark (suc n) buf at_ stride h dark =
    let (a, e) = get_elem?-lt buf (at_ + 3) (grind arith) in
    let first : a < 64 =
      dark 0 (omega arith) a (let z : at_ + 0 * stride ≡ at_ = omega arith in rw z e) in
    let v : leb 64 a ≡ false = ground arith in
    rw (e, v)
      (find-Dark n buf (at_ + stride) stride (grind arith)
        (λ j lt. rw (next_index at_ j stride) at (dark (suc j) (omega arith))))

pub Returns-weaken :
    {A : Type 0} {P Q : A → Type 0} (o : Option A)
    → Returns P o
    → ((a : A) → P a → Q a)
    → Returns Q o
Returns-weaken (some a) (returned p) k = returned (k a p)
Returns-weaken none r k = elim r [ ]

pub Returns-if :
    {A : Type 0} {P : A → Type 0} (v : Bool) (a b : Option A)
    → Returns P a
    → Returns P b
    → Returns P (if v then a else b)
Returns-if true a b h k = h
Returns-if false a b h k = k

pub scan_up_lem :
    (n : ℕ) (buf : List ℕ) (i at_ step stride len d : ℕ)
    → at_ + n * step + len * stride + 4 ≤ length buf + step + stride
    → 4 ≤ stride
    → Returns (λ x. (x < i + n) ⊎ (x ≡ d)) (scan_up n buf i at_ step stride len d)
unfolding scan_up
scan_up_lem zero buf i at_ step stride len d h k = returned (inr refl)
scan_up_lem (suc n) buf i at_ step stride len d h k =
    Returns-bind _ (find_valid_pixman len buf at_ stride)
      (find_lem len buf at_ stride (grind arith, k))
      λ v _.
        Returns-if v (some i) (scan_up n buf (i + 1) (at_ + step) step stride len d)
          (returned (inl (omega arith)))
          (Returns-weaken (scan_up n buf (i + 1) (at_ + step) step stride len d)
            (scan_up_lem n buf (i + 1) (at_ + step) step stride len d (grind arith) k)
            λ x p. elim p [ inl lt ↦ inl (omega arith) | inr e ↦ inr e ])

scan_down_lem :
    (n : ℕ) (buf : List ℕ) (i at_ step stride len d : ℕ)
    → Inside buf len at_ stride
    → Returns (λ x. (x ≤ i + 1) ⊎ (x ≡ d)) (scan_down n buf i at_ step stride len d)
unfolding scan_down
scan_down_lem zero buf i at_ step stride len d h = returned (inr refl)
scan_down_lem (suc n) buf i at_ step stride len d h =
    Returns-bind _ (find_valid_pixman len buf at_ stride) (find_lem len buf at_ stride h) λ v _.
      Returns-if v (some (i + 1)) (scan_down n buf (i - 1) (at_ - step) step stride len d)
        (returned (inl (omega arith)))
        (Returns-weaken (scan_down n buf (i - 1) (at_ - step) step stride len d)
          (scan_down_lem n buf (i - 1) (at_ - step) step stride len d (omega arith, h.1))
          λ x p. elim p [ inl le ↦ inl (omega arith) | inr e ↦ inr e ])

-- Where the first line is dark, the bound is the index at most.
pub scan_down-Dark :
    (n : ℕ) (buf : List ℕ) (i at_ step stride len : ℕ)
    → Inside buf len at_ stride
    → 0 < i
    → ((j : ℕ) → j < len → Dark buf (at_ + j * stride))
    → Returns (λ x. x ≤ i) (scan_down n buf i at_ step stride len i)
unfolding scan_down
scan_down-Dark zero buf i at_ step stride len h pos' dark = returned (omega arith)
scan_down-Dark (suc n) buf i at_ step stride len h pos' dark =
    rw (find-Dark len buf at_ stride h dark) (
      Returns-weaken (scan_down n buf (i - 1) (at_ - step) step stride len i)
        (scan_down_lem n buf (i - 1) (at_ - step) step stride len i (omega arith, h.1))
        λ x p. elim p [ inl le ↦ omega arith | inr e ↦ omega arith ])

-- A box within the picture.
abbrev FitsBox : Option Box → Type 0
FitsBox none = Unit {0}
FitsBox (some b) = (b.x2 ≤ 64) × (b.y2 ≤ 64)

fits_if : (v : Bool) (b : Box) → FitsBox (some b) → FitsBox (if v then none else some b)
fits_if true b h = tt
fits_if false b h = h

module _ (buf : List ℕ) (size : length buf ≡ 64 * 64 * 4) where
  module _ (last_row : (c : ℕ) → c < 64 → Dark buf (63 * 256 + c * 4)) where
    pub row-Dark :
        (x1 x2 : ℕ)
        → x2 ≤ 64
        → (j : ℕ) → j < x2 - x1
        → Dark buf (64 * 64 * 4 - (64 - x1) * 4 + j * 4)
    row-Dark x1 x2 le j lt =
        let e : 63 * 256 + (x1 + j) * 4 ≡ 64 * 64 * 4 - (64 - x1) * 4 + j * 4 = omega arith in
        rw e at (last_row (x1 + j) (omega arith))

    rows_lem : (x1 x2 : ℕ) → x2 ≤ 64 → Returns FitsBox (rows_of buf x1 x2)
    unfolding rows_of
    rows_lem x1 x2 le = elim (Bool-cases (leb x2 x1)) [
      | inl empty ↦ rw empty (returned tt)
      | inr some' ↦ rw some' (
          let lt : x1 < x2 = ground arith in
          Returns-bind _ (scan_up 64 buf 0 (x1 * 4) 256 4 (x2 - x1) 0)
            (scan_up_lem 64 buf 0 (x1 * 4) 256 4 (x2 - x1) 0 (omega arith) (omega arith))
            λ y1 _.
              Returns-bind _
                (scan_down (64 - y1) buf 64 (64 * 64 * 4 - (64 - x1) * 4) 256 4 (x2 - x1) 64)
                (scan_down-Dark (64 - y1) buf 64 (64 * 64 * 4 - (64 - x1) * 4) 256 4 (x2 - x1)
                  (omega arith, omega arith) (omega arith) (row-Dark x1 x2 le))
                λ y2 h.
                  returned
                    (fits_if (leb y2 y1) (record { x1 = x1; x2 = x2; y1 = y1; y2 = y2 }) (le, h)))
    ]

    box_lem : ((r : ℕ) → r < 64 → Dark buf (63 * 4 + r * 256)) → Returns FitsBox (box_of buf)
    unfolding box_of
    box_lem last_column =
        Returns-bind _ (scan_up 64 buf 0 0 4 256 64 0)
          (scan_up_lem 64 buf 0 0 4 256 64 0 (omega arith) (omega arith))
          λ x1 _.
            Returns-bind _ (scan_down (64 - x1) buf 64 (63 * 4) 4 256 64 64)
              (scan_down-Dark (64 - x1) buf 64 (63 * 4) 4 256 64 (omega arith, omega arith)
                (omega arith) last_column)
              λ x2 h. rows_lem x1 x2 h

with_box-FitsCursor :
    (c : Cursor) (picture : List ℕ) (b : Option Box)
    → FitsCursor c
    → length picture ≡ 64 * 64 * 4
    → FitsBox b
    → FitsCursor (with_box c picture b)
with_box-FitsCursor c picture none h size fits = record {
  columns = h.columns;
  rows = h.rows;
  bytes = omega arith;
}
with_box-FitsCursor c picture (some b) h size fits = record {
  columns = fits.0;
  rows = fits.1;
  bytes = omega arith;
}

-- For a picture of 64 rows of 64 pixels, of which the last column and the last row are dark,
-- setting the cursor reads no byte out of the picture, and the cursor's box lies in its buffer
-- afterwards, as it did before. The code is 0 if the adapter is enabled, else -EPERM.
pub cursor_set-FitsCursor :
    (d : Dev) (picture : List ℕ)
    → length picture ≡ 64 * 64 * 4
    → ((c : ℕ) → c < 64 → Dark picture (63 * 256 + c * 4))
    → ((r : ℕ) → r < 64 → Dark picture (63 * 4 + r * 256))
    → FitsCursor d.cursor
    → Returns
        (λ (rtn, d'). FitsCursor d'.cursor × (rtn ≡ (if is_enabled d then success else e_perm)))
        (cursor_set d (some picture))
unfolding cursor_set
cursor_set-FitsCursor d picture size row column fits = elim (Bool-cases (is_enabled d)) [
  | inr off ↦ simp off (returned (fits, refl))
  | inl on ↦ simp on (
      Returns-bind _ (box_of picture) (box_lem picture size row column)
        λ b h. returned (with_box-FitsCursor d.cursor picture b fits size h, refl))
]
