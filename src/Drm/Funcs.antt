-- ===== src/Drm/Funcs.antt =====
-- src/drm/msdisp_usb_interface.h: how the display half drives an adapter.
use ms912x.Base.{ℕ, Option, List}
use ms912x.Base.Int.{ℤ}

-- MODE_OK and MODE_BAD of drm_modes.h.
pub data ModeStatus : Type 0 where
  mode_ok mode_bad : ModeStatus

-- `struct drm_rect`, with a corner `x2`, `y2` that is not negative: DRM clips damage to the plane.
pub record Rect : Type 0 where
  pub x1 : ℤ
  pub y1 : ℤ
  pub x2 : ℕ
  pub y2 : ℕ

-- `struct msdisp_usb_hal_funcs`, on a state `S` of all adapters. The first number of each call is the
-- adapter. A pointer that is written to is part of the result: a status, the bytes of a block, the
-- codes in a buffer. For a picture `none` is a read out of its bounds, for a code one never assigned.
pub record HalFuncs (S : Type 0) : Type 0 where
  pub get_hpd_status : ℕ → S → (ℤ × ℕ) × S
  pub get_edid : ℕ → ℕ → List ℕ → ℕ → S → (Option ℤ × List ℕ) × S
  pub mode_valid : ℕ → ℕ → ℕ → ℕ → S → ModeStatus
  pub enable : ℕ → ℕ → ℕ → ℕ → ℕ → S → ℤ × S
  pub disable : ℕ → S → ℤ × S
  pub send_xrgb8888_rect : ℕ → List ℕ → ℕ → ℕ → ℕ → Rect → S → Option (ℤ × S)
  pub get_custom_cea_vic : ℕ → ℕ → S → ℤ × List ℕ
  pub cursor_set : ℕ → Option (List ℕ) → S → Option (ℤ × S)
  pub cursor_move : ℕ → ℤ → ℤ → S → ℤ × S
