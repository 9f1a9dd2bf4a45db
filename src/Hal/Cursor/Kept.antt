-- ===== src/Hal/Cursor/Kept.antt =====
-- src/usb_hal/usb_hal_interface.c: the cursor's operations leave the frame requests alone.
use ms912x.Base.{ℕ, ◌≡◌, refl, inl, inr, Option, none, some, List, Bool-cases, Option-cases}
use ms912x.Base.Int.{ℤ}
use ms912x.Hal.Dev.{Dev}
use ms912x.Hal.Request.{is_enabled}
use ms912x.Hal.Cursor.{box_of, cursor_set, cursor_move}

-- Both requests are as they were, where there is a result.
abbrev pub SameRequests : Dev → Option (ℤ × Dev) → Type 0
SameRequests d none = Unit {0}
SameRequests d (some (code, d')) = (d'.request0 ≡ d.request0) × (d'.request1 ≡ d.request1)

pub cursor_set-SameRequests : (d : Dev) (buf : Option (List ℕ)) → SameRequests d (cursor_set d buf)
unfolding cursor_set
cursor_set-SameRequests d none = elim (Bool-cases (is_enabled d)) [
  | inl on ↦ rw on (refl, refl)
  | inr off ↦ rw off (refl, refl)
]
cursor_set-SameRequests d (some picture) = elim (Bool-cases (is_enabled d)) [
  | inr off ↦ rw off (refl, refl)
  | inl on ↦ elim (Option-cases (box_of picture)) [
    | inl e ↦ rw (on, e) tt
    | inr (b, e) ↦ rw (on, e) (refl, refl)
  ]
]

pub cursor_move-SameRequests : (d : Dev) (x y : ℤ) → SameRequests d (some (cursor_move d x y))
unfolding cursor_move
cursor_move-SameRequests d x y = elim (Bool-cases (is_enabled d)) [
  | inl on ↦ rw on (refl, refl)
  | inr off ↦ rw off (refl, refl)
]
