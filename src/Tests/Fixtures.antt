-- ===== src/Tests/Fixtures.antt =====
-- An adapter in several states, and the kernel's FIFO as a list.
use ms912x.Base.{
  ℕ, ◌-◌, ◌*◌, ◌^◌, ◌≡◌, refl, inl, true, false, Option, none, some, List, [], ◌∷◌, ◌++◌, arith,
  replicate, length-replicate,
}
use ms912x.Base.Int.{pos, negsuc}
use ms912x.Usb.{Kernel, success}
use ms912x.Device.Event.{Event, event_type_enable, event_type_disable}
use ms912x.Hal.Dev.{Dev, DevState, VideoMode, FrameStat, Cursor, FrameRequest}
use ms912x.Hal.Fifo.{Fifo, IsFifo}
use ms912x.Hal.Mode.{video_mode_valid}
use ms912x.Hal.Mode.Laws.{video_mode_valid_iff}
use ms912x.Hal.Frame.Safety.{FitsCursor}
use ms912x.Tests.Sim.{adapter}

abbrev pub quiet : Kernel
quiet = adapter (λ a. 0)

abbrev pub no_frames : FrameStat
no_frames = record {
  send_total = 0;
  send_success = 0;
  update_sequence = 0;
  dropped_stale = 0;
  state_error = 0;
  send_fail = 0;
  pack_last_ms = 0;
  pack_max_ms = 0;
  usb_last_ms = 0;
  usb_max_ms = 0;
  busy_drop = 0;
  first_frame_success = 0;
  keepalive_send = 0;
}

abbrev pub cursor : Cursor
cursor = record {
  valid = true;
  buf = replicate (64 * 64 * 4) 9;
  x = negsuc 1;
  y = pos 1;
  x1 = 0;
  y1 = 0;
  x2 = 10;
  y2 = 3;
}

pub cursor-Fits : FitsCursor cursor
cursor-Fits = record {
  columns = omega arith;
  rows = omega arith;
  bytes = omega (arith, length-replicate {A = ℕ} (64 * 64 * 4) 9);
}

abbrev pub free_request : FrameRequest
free_request = record {
  transfer = [];
  transfer_len = 0;
  alloc_len = 256;
  done = true;
  first_frame = false;
}

abbrev pub small_mode : VideoMode
small_mode = record { width = 16; height = 4; rate = 60; vic = 0 }

-- An adapter of a small mode, with one request in use.
abbrev pub running : Dev
running = record {
  chip_id = 0;
  port_type = 5;
  sdram_type = 1;
  misc_timing = [];
  detail_count = 0;
  fifo = [];
  mode = small_mode;
  vpack_in = 2;
  vpack_out = 1;
  color_out = 1;
  trans_mode = 3;
  cursor = cursor;
  stat = no_frames;
  state = DevState.enabled;
  suspended = false;
  first_buf_send = true;
  current_request = 1;
  last_send_jiffies = 2 ^ 64 - 100;
  request0 = free_request;
  request1 = record free_request { done = false };
  custom_mode = [];
}

abbrev pub picture : List ℕ
picture = replicate 256 200

abbrev pub listed : Fifo
listed = record { kfifo_in = λ q e. q ++ e ∷ []; kfifo_out = first }
  where
    first : List Event → Option (Event × List Event)
    first [] = none
    first (e ∷ q) = some (e, q)

pub listed-IsFifo : IsFifo listed 51
listed-IsFifo = record {
  kfifo_in_room = λ q e h. refl;
  kfifo_out_nil = refl;
  kfifo_out_cons = λ e q. refl;
}

abbrev pub event : ℕ → Event
event n = record {
  kind = n;
  para = record {
    color_in = 0x12;
    color_out = 1;
    vic = 129;
    trans_mode = 3;
    width = 1920;
    height = 1080;
  };
}

-- Disabled, with an enable, an enable and a disable to serve.
abbrev pub waiting : Dev
waiting = record running {
  state = DevState.disabled;
  fifo = event event_type_enable ∷ event event_type_enable ∷ event event_type_disable ∷ [];
}

abbrev pub full_hd : VideoMode
full_hd = record { width = 1920; height = 1080; rate = 60; vic = 129 }

abbrev pub stopped : Dev
stopped = record running { state = DevState.disabled; fifo = [] }

-- The mode is one of the custom modes.
abbrev pub tuned : Dev
tuned = record stopped { custom_mode = full_hd ∷ [] }

pub tuned_valid : video_mode_valid tuned full_hd ≡ success
tuned_valid = (video_mode_valid_iff tuned full_hd).1 (inl (inl (refl, refl, refl)))
