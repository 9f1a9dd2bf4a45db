-- ===== src/Hal/Thread/Serves.antt =====
-- src/usb_hal/usb_hal_thread.c: no request is left in the queue without a wake-up.
use ms912x.Base.{
  ℕ, zero, suc, ◌<◌, ◌≡◌, refl, sym, ◌∙◌, ◌⊎◌, inl, inr, true, false, List, [], ◌∷◌, arith,
  Bool-cases, Option-cases,
}
use ms912x.Base.Int.{ℤ, nonzero}
use ms912x.Usb.{Kernel, History}
use ms912x.Device.Event.{Event}
use ms912x.Hal.Dev.{Dev, VideoMode}
use ms912x.Hal.Fifo.{Fifo, IsFifo}
use ms912x.Hal.Mode.{video_mode_valid, find_desc, enable, disable}
use ms912x.Hal.Machine.{drain, state_machine}
use ms912x.Hal.Machine.Events.{drain-Drained}
use ms912x.Hal.Machine.Alive.{keep_alive-Kept}
use ms912x.Hal.Thread.{
  Thread, down_timeout, thread_round, Act, round, ask_enable, ask_disable, asked, act, thread_entry,
}

-- The bus is not suspended, and where events wait the semaphore is up.
abbrev pub IsWoken : Thread → Type 0
IsWoken t = (t.dev.suspended ≡ false) × ((t.dev.fifo ≡ []) ⊎ (0 < t.sema))

-- A round whose semaphore was acquired, or with nothing in the queue, leaves an empty queue.
abbrev Idle : Dev → Type 0
Idle d = (d.suspended ≡ false) × (d.fifo ≡ [])

acquired :
    (sema : ℕ) (q : List Event)
    → ((q ≡ []) ⊎ (0 < sema))
    → ((nonzero (down_timeout sema).0 ≡ false) ⊎ (q ≡ []))
acquired zero q (inl e) = inr e
acquired zero q (inr lt) = absurd (omega (arith, lt))
acquired (suc n) q woken = inl refl

module _ (f : Fifo) (cap : ℕ) (is : IsFifo f cap) (k : Kernel) (hz : ℕ) where
  machine-Idle :
      (now : ℕ) (ret : ℤ) (d : Dev) (h : History)
      → d.suspended ≡ false
      → ((nonzero ret ≡ false) ⊎ (d.fifo ≡ []))
      → Idle (state_machine f k hz now ret d h).0.0
  unfolding state_machine
  machine-Idle now ret d h awake why = elim (Bool-cases (nonzero ret)) [
    | inl missed ↦
        let s = keep_alive-Kept hz now d in
        simp (awake, missed)
          (
            s.bus ∙ awake,
            s.queue ∙ elim why [
              | inl got ↦ (let bad : true ≡ false = sym missed ∙ got in absurd cc)
              | inr empty ↦ empty
            ],
          )
    | inr got ↦
        let r = drain-Drained f cap is k d h in
        let s = keep_alive-Kept hz now (drain f k d h).0 in
        simp (awake, got) (s.bus ∙ r.bus ∙ awake, s.queue ∙ r.empty)
  ]

  round-Idle :
      (now : ℕ) (t : Thread) (h : History) → IsWoken t → Idle (thread_round f k hz now t h).0.dev
  unfolding thread_round
  round-Idle now t h (awake, woken) =
      machine-Idle now (down_timeout t.sema).0 t.dev h awake (acquired t.sema t.dev.fifo woken)

  round-IsWoken :
      (now : ℕ) (t : Thread) (h : History) → IsWoken t → IsWoken (thread_round f k hz now t h).0
  round-IsWoken now t h woken = let (awake, empty) = round-Idle now t h woken in (awake, inl empty)

  enable-IsWoken :
      (m : VideoMode) (fourcc : ℕ) (t : Thread)
      → IsWoken t
      → IsWoken (asked (enable f t.dev m fourcc) t)
  unfolding enable
  enable-IsWoken m fourcc t (awake, woken) =
      elim (Bool-cases (nonzero (video_mode_valid t.dev m))) [
        | inl bad ↦ rw bad (awake, woken)
        | inr good ↦ elim (Option-cases (find_desc fourcc)) [
          | inl none' ↦ rw (good, none') (awake, woken)
          | inr (desc, e) ↦ rw (good, e) (awake, inr (omega arith))
        ]
      ]

  act-IsWoken : (a : Act) (t : Thread) (h : History) → IsWoken t → IsWoken (act f k hz a t h).0
  unfolding disable
  act-IsWoken (round now) t h woken = round-IsWoken now t h woken
  act-IsWoken (ask_enable m fourcc) t h woken = enable-IsWoken m fourcc t woken
  act-IsWoken ask_disable t h (awake, woken) = (awake, inr (omega arith))

  entry-IsWoken :
      (acts : List Act) (t : Thread) (h : History)
      → IsWoken t
      → IsWoken (thread_entry f k hz acts t h).0
  unfolding thread_entry
  entry-IsWoken [] t h woken = woken
  entry-IsWoken (a ∷ acts) t h woken =
      let r = act f k hz a t h in entry-IsWoken acts r.0 r.1 (act-IsWoken a t h woken)

  -- Where the FIFO passes on whole events in order and an adapter whose bus is not suspended starts
  -- with an empty queue or its semaphore up: whatever is asked of it afterwards and whenever rounds
  -- run in between, the next round leaves nothing in the queue, so no request waits for a wake-up.
  pub thread_entry-Idle :
      (acts : List Act) (t : Thread) (h : History) (now : ℕ)
      → IsWoken t
      → let (t', h') = thread_entry f k hz acts t h in
        (thread_round f k hz now t' h').0.dev.fifo ≡ []
  thread_entry-Idle acts t h now woken =
      let (t', h') = thread_entry f k hz acts t h in
      (round-Idle now t' h' (entry-IsWoken acts t h woken)).1
