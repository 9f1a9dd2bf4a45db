-- ===== src/Hal/Cursor/Covers.antt =====
-- src/usb_hal/usb_hal_interface.c: the box holds every visible pixel of the cursor.
use ms912x.Base.{
  ℕ, zero, suc, ◌+◌, ◌-◌, ◌*◌, ◌≤◌, ◌<◌, ◌≡◌, refl, subst, inl, inr, Bool, true, false, Option,
  none, some, List, arith, leb, if◌then◌else◌, Bool-cases, length, get_elem?, get_elem?-lt,
}
use ms912x.Hal.Dev.{Dev, Cursor}
use ms912x.Hal.Frame.Safety.{Returns, returned, Returns-bind}
use ms912x.Hal.Request.{is_enabled}
use ms912x.Hal.Cursor.{
  find_valid_pixman, scan_up, scan_down, Box, rows_of, box_of, with_box, cursor_set,
}
use ms912x.Hal.Cursor.Bounds.{
  Dark, Inside, find_lem, scan_down-Dark, next_index, Returns-if, Returns-weaken,
}

find_bright :
    (n : ℕ) (buf : List ℕ) (at_ stride j a : ℕ)
    → Inside buf n at_ stride
    → j < n
    → get_elem? buf (at_ + j * stride + 3) ≡ some a
    → 64 ≤ a
    → find_valid_pixman n buf at_ stride ≡ some true
unfolding find_valid_pixman
find_bright zero buf at_ stride j a h lt e bright = absurd (omega arith)
find_bright (suc n) buf at_ stride zero a h lt e bright =
    let z : at_ + 0 * stride + 3 ≡ at_ + 3 = omega arith in
    let e' : get_elem? buf (at_ + 3) ≡ some a = rw z at e in
    let v : leb 64 a ≡ true = ground arith in rw (e', v) refl
find_bright (suc n) buf at_ stride (suc j) a h lt e bright =
    let (b, eb) = get_elem?-lt buf (at_ + 3) (grind arith) in
    elim (Bool-cases (leb 64 b)) [
      | inl v ↦ rw (eb, v) refl
      | inr v ↦
          rw (eb, v)
            (find_bright n buf (at_ + stride) stride j a (grind arith) (omega arith)
              (rw (next_index at_ j stride) at e) bright)
    ]

scan_up_bright :
    (n : ℕ) (buf : List ℕ) (i at_ step stride len d k : ℕ)
    → at_ + n * step + len * stride + 4 ≤ length buf + step + stride
    → 4 ≤ stride
    → k < n
    → find_valid_pixman len buf (at_ + k * step) stride ≡ some true
    → Returns (λ x. x ≤ i + k) (scan_up n buf i at_ step stride len d)
unfolding scan_up
scan_up_bright zero buf i at_ step stride len d k h s lt e = absurd (omega arith)
scan_up_bright (suc n) buf i at_ step stride len d zero h s lt e =
    let z : at_ + 0 * step ≡ at_ = omega arith in
    let e' : find_valid_pixman len buf at_ stride ≡ some true = rw z at e in
    rw e' (returned (omega arith))
scan_up_bright (suc n) buf i at_ step stride len d (suc k) h s lt e =
    let z : i + 1 + k ≡ i + suc k = omega arith in
    Returns-bind _ (find_valid_pixman len buf at_ stride)
      (find_lem len buf at_ stride (grind arith, s))
      λ v _.
        Returns-if v (some i) (scan_up n buf (i + 1) (at_ + step) step stride len d)
          (returned (omega arith))
          (subst (λ b. Returns (λ x. x ≤ b) (scan_up n buf (i + 1) (at_ + step) step stride len d))
            z
            (scan_up_bright n buf (i + 1) (at_ + step) step stride len d k (grind arith) s
              (omega arith) (rw (next_index at_ k step) at e)))

scan_down_bright :
    (n : ℕ) (buf : List ℕ) (i at_ step stride len d k : ℕ)
    → Inside buf len at_ stride
    → k < n
    → k ≤ i
    → find_valid_pixman len buf (at_ - k * step) stride ≡ some true
    → Returns (λ x. i + 1 ≤ x + k) (scan_down n buf i at_ step stride len d)
unfolding scan_down
scan_down_bright zero buf i at_ step stride len d k h lt le e = absurd (omega arith)
scan_down_bright (suc n) buf i at_ step stride len d zero h lt le e =
    let z : at_ - 0 * step ≡ at_ = omega arith in
    let e' : find_valid_pixman len buf at_ stride ≡ some true = rw z at e in
    rw e' (returned (omega arith))
scan_down_bright (suc n) buf i at_ step stride len d (suc k) h lt le e =
    let z : at_ - suc k * step ≡ at_ - step - k * step = grind arith in
    Returns-bind _ (find_valid_pixman len buf at_ stride) (find_lem len buf at_ stride h) λ v _.
      Returns-if v (some (i + 1)) (scan_down n buf (i - 1) (at_ - step) step stride len d)
        (returned (omega arith))
        (Returns-weaken (scan_down n buf (i - 1) (at_ - step) step stride len d)
          (scan_down_bright n buf (i - 1) (at_ - step) step stride len d k (omega arith, h.1)
            (omega arith) (omega arith) (rw z at e))
          λ x p. omega arith)

Returns-both :
    {A : Type 0} {P Q : A → Type 0} (o : Option A)
    → Returns P o
    → Returns Q o
    → Returns (λ x. P x × Q x) o
Returns-both (some a) (returned p) (returned q) = returned (p, q)
Returns-both none p q = elim p [ ]

-- A valid cursor whose box holds the pixel of row `r` and column `k`.
abbrev pub HasPixel : ℕ → ℕ → Cursor → Type 0
HasPixel r k c = (c.valid ≡ true) × (c.x1 ≤ k) × (k < c.x2) × (c.y1 ≤ r) × (r < c.y2)

module _ (c : Cursor) (picture : List ℕ) (r k : ℕ) where
  box_if :
      (v : Bool) (b : Box)
      → v ≡ false
      → b.x1 ≤ k
      → k < b.x2
      → b.y1 ≤ r
      → r < b.y2
      → HasPixel r k (with_box c picture (if v then none else some b))
  box_if true b h e f g i = absurd (ground arith)
  box_if false b h e f g i = (refl, e, f, g, i)

module _ (buf : List ℕ) (size : length buf ≡ 64 * 64 * 4) (c : Cursor) (r k a : ℕ) (row : r < 64)
    (column : k < 64) (e : get_elem? buf (k * 4 + r * 256 + 3) ≡ some a) (bright : 64 ≤ a) where
  column_bright : find_valid_pixman 64 buf (k * 4) 256 ≡ some true
  column_bright = find_bright 64 buf (k * 4) 256 r a (omega arith, omega arith) row e bright

  row_bright :
      (x1 x2 : ℕ)
      → x1 ≤ k
      → k < x2
      → x2 ≤ 64
      → find_valid_pixman (x2 - x1) buf (x1 * 4 + r * 256) 4 ≡ some true
  row_bright x1 x2 le lt le' =
      let z : k * 4 + r * 256 + 3 ≡ x1 * 4 + r * 256 + (k - x1) * 4 + 3 = omega arith in
      find_bright (x2 - x1) buf (x1 * 4 + r * 256) 4 (k - x1) a (omega arith, omega arith)
        (omega arith) (rw z at e) bright

  rows_bright :
      (x1 x2 : ℕ)
      → x1 ≤ k
      → k < x2
      → x2 ≤ 64
      → Returns (λ b. HasPixel r k (with_box c buf b)) (rows_of buf x1 x2)
  unfolding rows_of
  rows_bright x1 x2 le lt le' =
      let some' : leb x2 x1 ≡ false = ground arith in
      let up : find_valid_pixman (x2 - x1) buf (x1 * 4 + r * 256) 4 ≡ some true =
        row_bright x1 x2 le lt le' in
      let z : 64 * 64 * 4 - (64 - x1) * 4 - (63 - r) * 256 ≡ x1 * 4 + r * 256 = omega arith in
      rw some' (
        Returns-bind _ (scan_up 64 buf 0 (x1 * 4) 256 4 (x2 - x1) 0)
          (scan_up_bright 64 buf 0 (x1 * 4) 256 4 (x2 - x1) 0 r (omega arith) (omega arith) row up)
          λ y1 from.
            Returns-bind _
              (scan_down (64 - y1) buf 64 (64 * 64 * 4 - (64 - x1) * 4) 256 4 (x2 - x1) 64)
              (scan_down_bright (64 - y1) buf 64 (64 * 64 * 4 - (64 - x1) * 4) 256 4 (x2 - x1) 64
                (63 - r) (omega arith, omega arith) (omega arith) (omega arith) (rw z up))
              λ y2 to.
                let v : leb y2 y1 ≡ false = ground arith in
                returned (
                  box_if c buf r k (leb y2 y1) (record { x1 = x1; x2 = x2; y1 = y1; y2 = y2 }) v le
                    lt (omega arith) (omega arith)))

  columns_bright :
      ((j : ℕ) → j < 64 → Dark buf (63 * 4 + j * 256))
      → Returns (λ b. HasPixel r k (with_box c buf b)) (box_of buf)
  unfolding box_of
  columns_bright last_column =
      let z : k * 4 ≡ 0 + k * 4 = omega arith in
      let z' : k * 4 ≡ 63 * 4 - (63 - k) * 4 = omega arith in
      Returns-bind _ (scan_up 64 buf 0 0 4 256 64 0)
        (scan_up_bright 64 buf 0 0 4 256 64 0 k (omega arith) (omega arith) column
          (rw z at column_bright))
        λ x1 from.
          Returns-bind _ (scan_down (64 - x1) buf 64 (63 * 4) 4 256 64 64)
            (Returns-both (scan_down (64 - x1) buf 64 (63 * 4) 4 256 64 64)
              (scan_down_bright (64 - x1) buf 64 (63 * 4) 4 256 64 64 (63 - k)
                (omega arith, omega arith) (omega arith) (omega arith) (rw z' at column_bright))
              (scan_down-Dark (64 - x1) buf 64 (63 * 4) 4 256 64 (omega arith, omega arith)
                (omega arith) last_column))
            λ x2 to. rows_bright x1 x2 (omega arith) (omega (arith, to.0)) to.1

-- For an enabled adapter, a picture of 64 rows of 64 pixels whose last column is dark, and a pixel of
-- it whose alpha is the threshold 64 at least: setting the cursor returns, and the cursor is valid
-- afterwards and its box holds this pixel. A picture that has no such pixel is not spoken of.
pub cursor_set-HasPixel :
    (d : Dev) (picture : List ℕ) (r k a : ℕ)
    → is_enabled d ≡ true
    → length picture ≡ 64 * 64 * 4
    → ((j : ℕ) → j < 64 → Dark picture (63 * 4 + j * 256))
    → r < 64
    → k < 64
    → get_elem? picture (k * 4 + r * 256 + 3) ≡ some a
    → 64 ≤ a
    → Returns (λ (rtn, d'). HasPixel r k d'.cursor) (cursor_set d (some picture))
unfolding cursor_set
cursor_set-HasPixel d picture r k a on size dark row column e bright = simp on (
    Returns-bind _ (box_of picture)
      (columns_bright picture size d.cursor r k a row column e bright dark) λ b h. returned h)
