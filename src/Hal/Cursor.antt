-- ===== src/Hal/Cursor.antt =====
-- src/usb_hal/usb_hal_interface.c: the hardware cursor's picture, the box of its visible pixels, and
-- its place. `none` is a read out of the picture's bounds.
pub mod Bounds
pub mod Covers
pub mod Kept
use ms912x.Base.{
  ℕ, zero, suc, ◌+◌, ◌-◌, ◌*◌, ◌/◌, ◌%◌, ◌^◌, ◌≤◌, ◌<◌, min, max, bit_and, bit_or, ◌≡◌, refl, sym,
  ap, ◌∙◌, subst, ◌≢◌, ◌↔◌, ◌⊎◌, inl, inr, Bool, true, false, not, ◌&&◌, ◌||◌, Option, none, some,
  List, [], ◌∷◌, ◌++◌, map, arith, ltb, leb, ◌==◌, if◌then◌else◌, ltb→lt, lt→ltb, leb→le, ==_iff,
  Bool-cases, Option-cases, length, get_elem?, get_or, set, take, drop, replicate, length-append,
  length-set, get_elem?-set_self, get_elem?-set_ne, get_elem?-lt, get_elem?_past, length-take,
  length-drop, length-replicate, All, All-append,
}
use ms912x.Base.Int.{ℤ, negsuc}
use ms912x.Usb.{success}
use ms912x.Hal.Dev.{Dev, DevState, Cursor, inc}
use ms912x.Hal.Frame.{◌>>=?◌}
use ms912x.Hal.Request.{is_enabled}

-- EPERM is 1.
abbrev pub e_perm : ℤ
e_perm = negsuc 0

-- `usb_hal_find_valid_pixman` from the byte `at_` on, at `n` pixels left.
pub find_valid_pixman : ℕ → List ℕ → ℕ → ℕ → Option Bool
find_valid_pixman zero buf at_ stride = some false
find_valid_pixman (suc n) buf at_ stride = get_elem? buf (at_ + 3) >>=? λ a.
    let rest = find_valid_pixman n buf (at_ + stride) stride in if leb 64 a then some true else rest

-- A loop that counts up from `i`: the first index whose line has a visible pixel, or `d`. Lines are
-- `step` bytes apart, their `len` pixels `stride`.
pub scan_up : ℕ → List ℕ → ℕ → ℕ → ℕ → ℕ → ℕ → ℕ → Option ℕ
scan_up zero buf i at_ step stride len d = some d
scan_up (suc n) buf i at_ step stride len d = find_valid_pixman len buf at_ stride >>=? λ v.
    let rest = scan_up n buf (i + 1) (at_ + step) step stride len d in if v then some i else rest

-- A loop that counts down from `i`, for `n` rounds at most: one more than the index whose line has a
-- visible pixel, or `d`.
pub scan_down : ℕ → List ℕ → ℕ → ℕ → ℕ → ℕ → ℕ → ℕ → Option ℕ
scan_down zero buf i at_ step stride len d = some d
scan_down (suc n) buf i at_ step stride len d = find_valid_pixman len buf at_ stride >>=? λ v.
    let rest = scan_down n buf (i - 1) (at_ - step) step stride len d in
    if v then some (i + 1) else rest

-- The four bounds, `x1`, `x2`, `y1` and `y2`, or nothing if the box is empty.
pub record Box : Type 0 where
  pub x1 : ℕ
  pub x2 : ℕ
  pub y1 : ℕ
  pub y2 : ℕ

-- The rows' bounds, for columns from `x1` to `x2`.
pub rows_of : List ℕ → ℕ → ℕ → Option (Option Box)
rows_of buf x1 x2 =
    if leb x2 x1
    then some none
    else (scan_up 64 buf 0 (x1 * 4) 256 4 (x2 - x1) 0 >>=? λ y1.
        scan_down (64 - y1) buf 64 (64 * 64 * 4 - (64 - x1) * 4) 256 4 (x2 - x1) 64 >>=? λ y2.
        some (if leb y2 y1 then none else some (record { x1 = x1; x2 = x2; y1 = y1; y2 = y2 })))

pub box_of : List ℕ → Option (Option Box)
box_of buf = scan_up 64 buf 0 0 4 256 64 0 >>=? λ x1.
    scan_down (64 - x1) buf 64 (63 * 4) 4 256 64 64 >>=? λ x2. rows_of buf x1 x2

-- The picture is stored in any case; an empty box makes the cursor invalid.
abbrev pub with_box : Cursor → List ℕ → Option Box → Cursor
with_box c buf none = record c { buf = buf; valid = false }
with_box c buf (some b) = record c {
  buf = buf;
  valid = true;
  x1 = b.x1;
  x2 = b.x2;
  y1 = b.y1;
  y2 = b.y2;
}

abbrev pub count_state_error : Dev → Dev
count_state_error d = record d { stat = record d.stat { state_error = inc d.stat.state_error } }

-- `usb_hal_cursor_set`; a null `buf` is `none`. The picture's 16384 bytes are copied.
pub cursor_set : Dev → Option (List ℕ) → Option (ℤ × Dev)
cursor_set d buf = if not (is_enabled d) then some (e_perm, count_state_error d) else elim buf [
  | none ↦ some (success, record d { cursor = record d.cursor { valid = false } })
  | some picture ↦
      box_of picture >>=? λ b. some (success, record d { cursor = with_box d.cursor picture b })
]

unfoldable pub cursor_move : Dev → ℤ → ℤ → ℤ × Dev
cursor_move d x y =
    if not (is_enabled d)
    then (e_perm, count_state_error d)
    else (success, record d { cursor = record d.cursor { x = x; y = y } })
