-- ===== src/Hal/Machine/Round.antt =====
-- src/usb_hal/usb_hal_thread.c: a whole round of the thread.
use ms912x.Base.{ℕ, ◌≡◌, refl, ◌∙◌, inl, inr, none, List, [], if◌then◌else◌, Bool-cases}
use ms912x.Base.Int.{ℤ, nonzero}
use ms912x.Usb.{Kernel, History}
use ms912x.Device.Event.{Event}
use ms912x.Hal.Dev.{Dev}
use ms912x.Hal.Fifo.{Fifo, IsFifo}
use ms912x.Hal.Machine.{drain, state_machine}
use ms912x.Hal.Machine.Events.{Runs, serve, drain-Drained}
use ms912x.Hal.Machine.Alive.{keep_alive-Kept}

-- A round of a suspended adapter makes no call and changes nothing. If the semaphore is not acquired, no event
-- is served: the bus sees no call, and the queue and the state stay. Otherwise the queue is empty
-- after the round, and the bus saw the events of a run of the state machine over it.
state_machine_lem :
    (f : Fifo) (cap : ℕ) (k : Kernel) (hz now : ℕ) (ret : ℤ) (d : Dev) (h : History)
    → IsFifo f cap
    → let (r, h') = state_machine f k hz now ret d h in
      if d.suspended
      then ((r ≡ (d, none)) × (h' ≡ h))
      else if nonzero ret
      then ((r.0.fifo ≡ d.fifo) × ((r.0.state ≡ d.state) × (h' ≡ h)))
      else ((r.0.fifo ≡ [])
          × ((out : List Event) × (Runs d.state d.fifo out r.0.state
                × (h' ≡ serve k d.chip_id d.port_type out h))))
unfolding state_machine
state_machine_lem f cap k hz now ret d h is = elim (Bool-cases d.suspended) [
  | inl asleep ↦ simp asleep (refl, refl)
  | inr awake ↦ elim (Bool-cases (nonzero ret)) [
    | inl missed ↦
        let s = keep_alive-Kept hz now d in simp (awake, missed) (s.queue, (s.state, refl))
    | inr got ↦
        let r = drain-Drained f cap is k d h in
        let s = keep_alive-Kept hz now (drain f k d h).0 in
        simp (awake, got) (s.queue ∙ r.empty, (r.out, (rw (← s.state) at r.runs, r.served)))
  ]
]
