-- ===== src/Hal/Dev.antt =====
-- src/usb_hal/usb_hal_dev.h, usb_hal_interface.h: the state of one adapter. The kernel objects in it
-- (locks, timer, thread) are left out, the semaphore is in Thread; a frame request keeps its completion as `done`.
use ms912x.Base.{ℕ, ◌+◌, ◌%◌, ◌^◌, Bool, List}
use ms912x.Base.Int.{ℤ}
use ms912x.Device.Edid.{MiscTiming}
use ms912x.Device.Event.{Event}

-- `struct usb_hal_video_mode`.
pub record VideoMode : Type 0 where
  pub width : ℕ
  pub height : ℕ
  pub rate : ℕ
  pub vic : ℕ

-- USB_HAL_DEV_STATE_*.
pub data DevState : Type 0 where
  unknown enabled disabled : DevState

-- `struct usb_hal_dev_frame_stat`.
pub record FrameStat : Type 0 where
  pub send_total : ℕ
  pub send_success : ℕ
  pub update_sequence : ℕ
  pub dropped_stale : ℕ
  pub state_error : ℕ
  pub send_fail : ℕ
  pub pack_last_ms : ℕ
  pub pack_max_ms : ℕ
  pub usb_last_ms : ℕ
  pub usb_max_ms : ℕ
  pub busy_drop : ℕ
  pub first_frame_success : ℕ
  pub keepalive_send : ℕ

-- A `u64` counter.
abbrev pub inc : ℕ → ℕ
inc n = (n + 1) % 2 ^ 64

-- `struct usb_hal_cursor_buffer`; `x` and `y` are an `int` each.
pub record Cursor : Type 0 where
  pub valid : Bool
  pub buf : List ℕ
  pub x : ℤ
  pub y : ℤ
  pub x1 : ℕ
  pub y1 : ℕ
  pub x2 : ℕ
  pub y2 : ℕ

-- `struct usb_hal_frame_request`: `done` is the completion, true while the request is free.
pub record FrameRequest : Type 0 where
  pub transfer : List ℕ
  pub transfer_len : ℕ
  pub alloc_len : ℕ
  pub done : Bool
  pub first_frame : Bool

-- `struct usb_hal_dev` with the fields of its `struct usb_hal`. The FIFO is the list of the whole
-- events in it, oldest first.
pub record Dev : Type 0 where
  pub chip_id : ℕ
  pub port_type : ℕ
  pub sdram_type : ℕ
  pub misc_timing : List MiscTiming
  pub detail_count : ℕ
  pub fifo : List Event
  pub mode : VideoMode
  pub vpack_in : ℕ
  pub vpack_out : ℕ
  pub color_out : ℕ
  pub trans_mode : ℕ
  pub cursor : Cursor
  pub stat : FrameStat
  pub state : DevState
  pub suspended : Bool
  pub first_buf_send : Bool
  pub current_request : ℕ
  pub last_send_jiffies : ℕ
  pub request0 : FrameRequest
  pub request1 : FrameRequest
  pub custom_mode : List VideoMode
