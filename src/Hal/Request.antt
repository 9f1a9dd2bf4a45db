-- ===== src/Hal/Request.antt =====
-- src/usb_hal/usb_hal_interface.c: the two frame requests of an adapter, from the choice of a free one to
-- the end of its transfer. A request's completion is taken as `done`, and queueing its work is part
-- of the result. What the times, `usb_sg_init` and the transfer give are parameters.
pub mod Slots
pub mod Picture
pub mod Keepalive
pub mod Work
pub mod Busy
use ms912x.Base.{
  ℕ, zero, suc, ◌+◌, ◌-◌, ◌*◌, ◌/◌, ◌%◌, min, bit_and, Bool, true, false, not, ◌||◌, Option, none,
  some, List, [], ◌∷◌, ◌++◌, ltb, leb, ◌==◌, if◌then◌else◌,
}
use ms912x.Base.Int.{ℤ, negsuc, nonzero, pos_part}
use ms912x.Usb.{Kernel, M, ◌>>=◌, pure, success, e_inval}
use ms912x.Device.Command.{set_video_enable, set_screen_enable}
use ms912x.Hal.Dev.{Dev, DevState, FrameRequest, FrameStat, inc}
use ms912x.Hal.Frame.{◌>>=?◌, pack_rect, frame_header, end_of_buffer}

-- EAGAIN is 11, EBUSY is 16.
abbrev pub e_again : ℤ
e_again = negsuc 10

abbrev pub e_busy : ℤ
e_busy = negsuc 15

abbrev pub is_enabled : Dev → Bool
is_enabled d = elim d.state [ DevState.enabled ↦ true | _ ↦ false ]

-- `requests[i]`, for an index below 2.
abbrev pub slot : Dev → ℕ → FrameRequest
slot d i = if i == 0 then d.request0 else d.request1

abbrev pub set_slot : Dev → ℕ → FrameRequest → Dev
set_slot d i r = if i == 0 then record d { request0 = r } else record d { request1 = r }

abbrev pub set_done : Dev → ℕ → Bool → Dev
set_done d i b = set_slot d i (record (slot d i) { done = b })

-- Request `i` in use, and the next search begins at the other.
unfoldable pub taken : Dev → ℕ → Dev
taken d i = record (set_done d i false) { current_request = 1 - i }

-- The loop that looks for a free request, at `n` rounds left and round `i`.
unfoldable pub claim_from : ℕ → ℕ → Dev → Option ℕ × Dev
claim_from zero i d = (none, d)
claim_from (suc n) i d =
    let index = (d.current_request + i) % 2 in
    let rest = claim_from n (i + 1) d in
    if (slot d index).done then (some index, taken d index) else rest

unfoldable pub claim : Dev → Option ℕ × Dev
claim d = claim_from 2 0 d

-- What a call returns, leaves, and puts on the work queue.
pub record Sent : Type 0 where
  pub code : ℤ
  pub dev : Dev
  pub queued : Option ℕ

abbrev pub sent : ℤ → Dev → Option ℕ → Sent
sent c d q = record { code = c; dev = d; queued = q }

-- `pack_last_ms` and `pack_max_ms` after a packing of `ms`.
abbrev pub packed_in : ℕ → FrameStat → FrameStat
packed_in ms st = record st {
  pack_last_ms = ms;
  pack_max_ms = if ltb st.pack_max_ms ms then ms else st.pack_max_ms;
}

-- After the packing: a failure completes the request, a success queues it.
unfoldable pub after_pack : ℕ → ℕ → Dev → ℤ × FrameRequest → Sent
after_pack ms index d (ret, request) =
    let d' = record (set_slot d index request) { stat = packed_in ms d.stat } in
    if nonzero ret
    then sent ret (set_done d' index true) none
    else sent success
        (record d' {
          stat = record d'.stat {
            update_sequence = inc d.stat.update_sequence;
            send_total = inc d.stat.send_total;
          };
        })
        (some index)

-- No request was free.
abbrev pub busy : Dev → Bool → Sent
busy d first_frame =
    sent (if first_frame then e_busy else success)
      (record d {
        stat = record d.stat {
          busy_drop = inc d.stat.busy_drop;
          dropped_stale = inc d.stat.dropped_stale;
        };
      })
      none

abbrev pub clip_x1 : ℤ → ℕ
clip_x1 x1 = bit_and (pos_part x1) 0xffc

abbrev pub clip_y1 : ℤ → ℕ
clip_y1 y1 = bit_and (pos_part y1) 0xffe

abbrev pub clip_x2 : ℕ → ℕ → ℕ
clip_x2 width x2 = min width (bit_and (x2 + 3) 0xffc)

abbrev pub clip_y2 : ℕ → ℕ → ℕ
clip_y2 height y2 = min height (bit_and (y2 + 1) 0xffe)

-- From the claimed request on; `none` is a read out of bounds.
unfoldable pub send_claimed : ℕ → Bool → List ℕ → ℕ → ℕ → ℕ → ℕ → ℕ → Option ℕ × Dev → Option Sent
send_claimed ms first_frame buf pitch x1 y1 x2 y2 (none, d) = some (busy d first_frame)
send_claimed ms first_frame buf pitch x1 y1 x2 y2 (some index, d) =
    let request = record (slot d index) { first_frame = first_frame } in
    pack_rect d.cursor request buf pitch x1 y1 x2 y2 >>=? λ r.
    some (after_pack ms index (set_slot d index request) r)

-- For a rectangle that is clipped.
unfoldable pub send_clipped : ℕ → Dev → List ℕ → ℕ → ℕ → ℕ → ℕ → ℕ → Option Sent
send_clipped ms d buf pitch x1 y1 x2 y2 =
    send_claimed ms (not d.first_buf_send) buf pitch x1 y1 x2 y2 (claim d)

-- `usb_hal_send_xrgb8888_rect`, for a corner `x2`, `y2` that is not negative; packing takes `ms`.
unfoldable pub send_xrgb8888_rect : ℕ → Dev → List ℕ → ℕ → ℕ → ℕ → ℤ → ℤ → ℕ → ℕ → Option Sent
send_xrgb8888_rect ms d buf width height pitch x1 y1 x2 y2 =
    if not (is_enabled d)
    then some (
        sent e_again (record d { stat = record d.stat { state_error = inc d.stat.state_error } })
          none)
    else if not (width == d.mode.width) || (not (height == d.mode.height) || ltb pitch (width * 4))
    then some (sent e_inval d none)
    else if leb (clip_x2 width x2) (clip_x1 x1)
        || (leb (clip_y2 height y2) (clip_y1 y1) || not ((clip_x2 width x2 - clip_x1 x1) % 2 == 0))
    then some (sent success d none)
    else send_clipped ms d buf pitch (clip_x1 x1) (clip_y1 y1) (clip_x2 width x2)
        (clip_y2 height y2)

-- `n` times the grey pair.
abbrev pub grey : ℕ → List ℕ
grey zero = []
grey (suc n) = 128 ∷ 16 ∷ 128 ∷ 16 ∷ grey n

pub pack_keepalive_block : FrameRequest → FrameRequest
pack_keepalive_block request = record request {
  transfer = frame_header 0 0 16 2 ++ (grey (16 * 2 / 2) ++ end_of_buffer);
  transfer_len = 8 + 16 * 2 * 2 + 8;
}

pub keepalive_claimed : Option ℕ × Dev → Sent
keepalive_claimed (none, d) = sent e_busy d none
keepalive_claimed (some index, d) =
    let request = pack_keepalive_block (record (slot d index) { first_frame = false }) in
    sent success
      (record (set_slot d index request) {
        stat = record d.stat { keepalive_send = inc d.stat.keepalive_send };
      })
      (some index)

pub send_keepalive : Dev → Sent
send_keepalive d = if not (is_enabled d) then sent e_again d none else keepalive_claimed (claim d)

-- `usb_hal_enable_screen_after_first_frame`.
pub enable_screen_after_first_frame : Kernel → ℕ → Dev → M Dev
enable_screen_after_first_frame k i d =
    if not (slot d i).first_frame
    then pure d
    else if not (is_enabled d) || d.first_buf_send
    then pure d
    else (do
      ret ← set_video_enable k 1
      (if nonzero ret then pure d else (do
        ret' ← set_screen_enable k 1 d.chip_id d.port_type
        (if nonzero ret'
            then pure d
            else pure (record d {
              first_buf_send = true;
              stat = record d.stat { first_frame_success = inc d.stat.first_frame_success };
            })))))

-- What the bulk transfer gives: the code of `usb_sg_init`, the status, the time it took and the
-- `jiffies` at its end.
pub record Transfer : Type 0 where
  pub init : ℤ
  pub status : ℤ
  pub ms : ℕ
  pub now : ℕ

abbrev pub sent_in : ℕ → FrameStat → FrameStat
sent_in ms st = record st {
  usb_last_ms = ms;
  usb_max_ms = if ltb st.usb_max_ms ms then ms else st.usb_max_ms;
}

-- After `usb_sg_wait`, up to the completion.
pub transferred : Kernel → Transfer → ℕ → Dev → M Dev
transferred k t i d =
    let st = sent_in t.ms d.stat in
    if nonzero t.status
    then pure (record d { stat = record st { send_fail = inc st.send_fail } })
    else enable_screen_after_first_frame k i (record d {
      stat = record st { send_success = inc st.send_success };
      last_send_jiffies = t.now;
    })

-- `usb_hal_frame_request_work`, for request `i`.
pub frame_request_work : Kernel → Transfer → ℕ → Dev → M Dev
frame_request_work k t i d =
    if nonzero t.init
    then pure
        (set_done (record d { stat = record d.stat { send_fail = inc d.stat.send_fail } }) i true)
    else (do d' ← transferred k t i d; pure (set_done d' i true))
