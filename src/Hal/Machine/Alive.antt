-- ===== src/Hal/Machine/Alive.antt =====
-- src/usb_hal/usb_hal_thread.c: when a round sends a keepalive.
use ms912x.Base.{
  ℕ, ◌+◌, ◌-◌, ◌*◌, ◌%◌, ◌^◌, ◌<◌, ◌≡◌, refl, inl, inr, true, not, ◌||◌, Option, none, some, arith,
  ltb, if◌then◌else◌, Bool-cases,
}
use ms912x.Hal.Dev.{Dev}
use ms912x.Hal.Request.{is_enabled, Sent, send_keepalive}
use ms912x.Hal.Request.Slots.{Outcome}
use ms912x.Hal.Request.Keepalive.{send_keepalive-Outcome, send_keepalive-Quiet}
use ms912x.Hal.Machine.{time_after, keep_alive}

apart_lem :
    (last span limit : ℕ)
    → span < 2 ^ 63
    → limit < 2 ^ 63
    → ((last + limit) % 2 ^ 64 + (2 ^ 64 - (last + span) % 2 ^ 64)) % 2 ^ 64
      ≡ (if ltb limit span then 2 ^ 64 - (span - limit) else limit - span)
apart_lem last span limit hs hl = ground arith

-- For two spans below 2^63, the test compares the spans, also where `jiffies` wraps around between.
pub time_after_lem :
    (last span limit : ℕ)
    → span < 2 ^ 63
    → limit < 2 ^ 63
    → time_after ((last + span) % 2 ^ 64) ((last + limit) % 2 ^ 64) ≡ ltb limit span
unfolding time_after
time_after_lem last span limit hs hl = rw (apart_lem last span limit hs hl) (ground arith)

abbrev pub Why : ℕ → ℕ → Dev → Option ℕ → Type 0
Why hz now d none = Unit {0}
Why hz now d (some i) =
    (is_enabled d ≡ true)
    × ((d.first_buf_send ≡ true)
        × (time_after now ((d.last_send_jiffies + 2 * hz) % 2 ^ 64) ≡ true))

why :
    (hz now : ℕ) (d : Dev) (q : Option ℕ)
    → (is_enabled d ≡ true)
      × ((d.first_buf_send ≡ true)
          × (time_after now ((d.last_send_jiffies + 2 * hz) % 2 ^ 64) ≡ true))
    → Why hz now d q
why hz now d none h = tt
why hz now d (some i) h = h

-- What a round's end leaves, and why it queued a request if it did.
pub record Kept (hz now : ℕ) (d : Dev) (s : Sent) : Type 0 where
  pub outcome : Outcome d s
  pub last_send : s.dev.last_send_jiffies ≡ d.last_send_jiffies
  pub queue : s.dev.fifo ≡ d.fifo
  pub state : s.dev.state ≡ d.state
  pub bus : s.dev.suspended ≡ d.suspended
  pub reason : Why hz now d s.queued

-- The end of a round leaves the two requests as a keepalive does, and touches neither the time of the
-- last frame nor the queue nor the state. It queues a request only if the adapter is enabled, the first frame was sent, and the
-- last frame was sent more than two seconds ago by `time_after`.
pub keep_alive-Kept : (hz now : ℕ) (d : Dev) → Kept hz now d (keep_alive hz now d)
unfolding keep_alive
keep_alive-Kept hz now d = elim (Bool-cases (not (is_enabled d) || not d.first_buf_send)) [
  | inl off ↦ simp off (record {
    outcome = (refl, refl);
    last_send = refl;
    queue = refl;
    state = refl;
    bus = refl;
    reason = tt;
  })
  | inr on ↦ elim (Bool-cases (time_after now ((d.last_send_jiffies + 2 * hz) % 2 ^ 64))) [
    | inr early ↦
        simp (on, early)
          (record {
            outcome = (refl, refl);
            last_send = refl;
            queue = refl;
            state = refl;
            bus = refl;
            reason = tt;
          })
    | inl late ↦
        let live : is_enabled d ≡ true = ground arith in
        let first : d.first_buf_send ≡ true = ground arith in
        let quiet = send_keepalive-Quiet d live in
        simp (on, late, quiet.0)
          (record {
            outcome = send_keepalive-Outcome d;
            last_send = quiet.1.0;
            queue = quiet.1.1.0;
            state = quiet.1.1.1.0;
            bus = quiet.1.1.1.1;
            reason = why hz now d (send_keepalive d).queued (live, (first, late));
          })
  ]
]
