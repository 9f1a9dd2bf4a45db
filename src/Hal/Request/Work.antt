-- ===== src/Hal/Request/Work.antt =====
-- src/usb_hal/usb_hal_interface.c: the work of a frame request, and the screen that the first frame
-- switches on.
use ms912x.Base.{
  ℕ, zero, suc, ◌-◌, ◌<◌, ◌≡◌, refl, ◌⊎◌, inl, inr, Bool, true, false, not, ◌||◌, arith,
  if◌then◌else◌, Bool-cases,
}
use ms912x.Base.Int.{nonzero}
use ms912x.Usb.{Kernel, History}
use ms912x.Device.Command.{set_video_enable, set_screen_enable}
use ms912x.Hal.Dev.{Dev, inc}
use ms912x.Hal.Request.{
  is_enabled, slot, set_done, enable_screen_after_first_frame, Transfer, sent_in, transferred,
  frame_request_work,
}

-- The second device differs from the first in `first_buf_send` and the counts of frames at most; it
-- was set by a first frame, while the adapter was enabled.
record Screened (i : ℕ) (d d' : Dev) : Type 0 where
  same0 : d'.request0 ≡ d.request0
  same1 : d'.request1 ≡ d.request1
  fails : d'.stat.send_fail ≡ d.stat.send_fail
  successes : d'.stat.send_success ≡ d.stat.send_success
  first :
      (d'.first_buf_send ≡ d.first_buf_send)
      ⊎ ((d'.first_buf_send ≡ true) × ((is_enabled d ≡ true) × ((slot d i).first_frame ≡ true)))

unscreened : (i : ℕ) (d : Dev) → Screened i d d
unscreened i d = record {
  same0 = refl;
  same1 = refl;
  fails = refl;
  successes = refl;
  first = inl refl;
}

enabled_of : (a b : Bool) → (not a || b) ≡ false → a ≡ true
enabled_of true b e = refl
enabled_of false b e = absurd (ground arith)

screen_lem :
    (k : Kernel) (i : ℕ) (d : Dev) (h : History)
    → Screened i d (enable_screen_after_first_frame k i d h).0
unfolding enable_screen_after_first_frame
screen_lem k i d h = elim (Bool-cases (slot d i).first_frame) [
  | inr later ↦ simp later (unscreened i d)
  | inl first ↦ elim (Bool-cases (not (is_enabled d) || d.first_buf_send)) [
    | inl skip ↦ simp (first, skip) (unscreened i d)
    | inr go ↦
        let video = set_video_enable k 1 h in
        let screen = set_screen_enable k 1 d.chip_id d.port_type video.1 in
        elim (Bool-cases (nonzero video.0)) [
          | inl failed ↦ simp (first, go, failed) (unscreened i d)
          | inr ok ↦ elim (Bool-cases (nonzero screen.0)) [
            | inl failed ↦ simp (first, go, ok, failed) (unscreened i d)
            | inr ok1 ↦
                simp (first, go, ok, ok1)
                  (record {
                    same0 = refl;
                    same1 = refl;
                    fails = refl;
                    successes = refl;
                    first = inr (refl, (enabled_of (is_enabled d) d.first_buf_send go, first));
                  })
          ]
        ]
  ]
]

-- What the work of request `i` leaves: the request is complete, the other is as it was, and one of the
-- two counts goes up, whichever the transfer's status says; the screen is on only by a first frame.
pub record Worked (t : Transfer) (i : ℕ) (d d' : Dev) : Type 0 where
  pub complete : (slot d' i).done ≡ true
  pub other : slot d' (1 - i) ≡ slot d (1 - i)
  counts :
      if nonzero t.init || nonzero t.status
      then (d'.stat.send_fail ≡ inc d.stat.send_fail) × (d'.stat.send_success ≡ d.stat.send_success)
      else (d'.stat.send_fail ≡ d.stat.send_fail) × (d'.stat.send_success ≡ inc d.stat.send_success)
  first :
      (d'.first_buf_send ≡ d.first_buf_send)
      ⊎ ((d'.first_buf_send ≡ true) × ((is_enabled d ≡ true) × ((slot d i).first_frame ≡ true)))

-- Before the completion.
record Tried (t : Transfer) (i : ℕ) (d d' : Dev) : Type 0 where
  same0 : d'.request0 ≡ d.request0
  same1 : d'.request1 ≡ d.request1
  counts :
      if nonzero t.init || nonzero t.status
      then (d'.stat.send_fail ≡ inc d.stat.send_fail) × (d'.stat.send_success ≡ d.stat.send_success)
      else (d'.stat.send_fail ≡ d.stat.send_fail) × (d'.stat.send_success ≡ inc d.stat.send_success)
  first :
      (d'.first_buf_send ≡ d.first_buf_send)
      ⊎ ((d'.first_buf_send ≡ true) × ((is_enabled d ≡ true) × ((slot d i).first_frame ≡ true)))

complete_lem :
    (t : Transfer) (i : ℕ) (d d' : Dev) → Tried t i d d' → i < 2 → Worked t i d (set_done d' i true)
complete_lem t zero d d' w h = record {
  complete = refl;
  other = w.same1;
  counts = w.counts;
  first = w.first;
}
complete_lem t (suc zero) d d' w h = record {
  complete = refl;
  other = w.same0;
  counts = w.counts;
  first = w.first;
}
complete_lem t (suc (suc i)) d d' w h = absurd (omega arith)

init_fails :
    (t : Transfer) (i : ℕ) (d : Dev)
    → nonzero t.init ≡ true
    → Tried t i d (record d { stat = record d.stat { send_fail = inc d.stat.send_fail } })
init_fails t i d e = record {
  same0 = refl;
  same1 = refl;
  counts = simp e (refl, refl);
  first = inl refl;
}

transferred_lem :
    (k : Kernel) (t : Transfer) (i : ℕ) (d : Dev) (h : History)
    → nonzero t.init ≡ false
    → Tried t i d (transferred k t i d h).0
unfolding transferred
transferred_lem k t i d h ok = elim (Bool-cases (nonzero t.status)) [
  | inl failed ↦ simp failed (record {
    same0 = refl;
    same1 = refl;
    counts = simp (ok, failed) (refl, refl);
    first = inl refl;
  })
  | inr good ↦
      let d1 = record d {
        stat = record (sent_in t.ms d.stat) { send_success = inc d.stat.send_success };
        last_send_jiffies = t.now;
      } in
      let s = screen_lem k i d1 h in
      simp good (record {
        same0 = s.same0;
        same1 = s.same1;
        counts = simp (ok, good) (s.fails, s.successes);
        first = s.first;
      })
]

-- The work of either request, whatever the kernel's answers and the transfer's outcome are, completes
-- the request and leaves the other as it was. It counts one failure if `usb_sg_init` or the
-- transfer fails, else one success. It marks the first frame as sent only for a request that is one,
-- while the adapter is enabled.
pub frame_request_work-Worked :
    (k : Kernel) (t : Transfer) (i : ℕ) (d : Dev) (h : History)
    → i < 2
    → Worked t i d (frame_request_work k t i d h).0
unfolding frame_request_work
frame_request_work-Worked k t i d h lt = elim (Bool-cases (nonzero t.init)) [
  | inl failed ↦ rw failed (complete_lem t i d _ (init_fails t i d failed) lt)
  | inr ok ↦ rw ok (complete_lem t i d (transferred k t i d h).0 (transferred_lem k t i d h ok) lt)
]
