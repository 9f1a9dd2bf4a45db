-- ===== src/Hal/Traffic/Tracked.antt =====
-- src/usb_hal/usb_hal_interface.c, usb_hal_thread.c: no request is lost, whatever happens in which order.
use ms912x.Base.{
  ℕ, zero, suc, ◌<◌, ◌≡◌, refl, sym, ap, ◌∙◌, subst, inl, inr, true, Option, none, some, List, [],
  ◌∷◌, arith, Bool-cases, Option-cases,
}
use ms912x.Base.Int.{ℤ, nonzero}
use ms912x.Usb.{Kernel, History}
use ms912x.Hal.Dev.{Dev, FrameRequest, VideoMode}
use ms912x.Hal.Fifo.{Fifo, IsFifo}
use ms912x.Hal.Mode.{video_mode_valid, find_desc, enable, disable}
use ms912x.Hal.Request.{Transfer, frame_request_work}
use ms912x.Hal.Request.Slots.{Outcome}
use ms912x.Hal.Request.Work.{Worked, frame_request_work-Worked}
use ms912x.Hal.Cursor.{cursor_set, cursor_move}
use ms912x.Hal.Cursor.Kept.{SameRequests, cursor_set-SameRequests, cursor_move-SameRequests}
use ms912x.Hal.Machine.{drain, keep_alive, state_machine}
use ms912x.Hal.Machine.Events.{drain-Drained}
use ms912x.Hal.Machine.Alive.{keep_alive-Kept}
use ms912x.Hal.Thread.{
  Thread, down_timeout, thread_round, Act, round, ask_enable, ask_disable, asked, act,
}
use ms912x.Hal.Traffic.{
  remove, run_work, count, Step, acts, sends, works, draws, moves, Reaches, fresh, next, run_all,
}
use ms912x.Hal.Traffic.Sends.{send-Effect}
use ms912x.Hal.Traffic.Queue.{
  Tracked, Effect, effect_lem, Freed, worked_lem, queued_bound, remove_head, count_head,
  Tracked-nil,
}

-- A request is in use exactly if it is queued, and it is queued once.
abbrev pub IsTracked : Thread → Type 0
IsTracked t = Tracked t.dev.request0.done t.dev.request1.done t.queued

Outcome-Effect :
    (d : Dev) (code : ℤ) (d' : Dev) (w : Option ℕ)
    → Outcome d (record { code = code; dev = d'; queued = w })
    → Effect d.request0.done d.request1.done d'.request0.done d'.request1.done w
Outcome-Effect d code d' none o = o
Outcome-Effect d code d' (some zero) ((good, lt), (free, (used, (len, (bytes, other))))) =
    (free, used, ap (λ (r : FrameRequest). r.done) other)
Outcome-Effect d code d' (some (suc zero)) ((good, lt), (free, (used, (len, (bytes, other))))) =
    (free, used, ap (λ (r : FrameRequest). r.done) other)
Outcome-Effect d code d' (some (suc (suc i))) ((good, lt), rest) = absurd (omega (arith, lt))

freed_lem :
    (outcome : Transfer) (i : ℕ) (d d' : Dev)
    → Worked outcome i d d'
    → i < 2
    → Freed d.request0.done d.request1.done d'.request0.done d'.request1.done i
freed_lem outcome zero d d' w lt = (w.complete, ap (λ (r : FrameRequest). r.done) w.other)
freed_lem outcome (suc zero) d d' w lt = (w.complete, ap (λ (r : FrameRequest). r.done) w.other)
freed_lem outcome (suc (suc i)) d d' w lt = absurd (omega (arith, lt))

module _ (f : Fifo) (cap : ℕ) (is : IsFifo f cap) (k : Kernel) (hz : ℕ) where
  Effect-cong :
      (d d1 d2 : Dev) (w : Option ℕ)
      → d1.request0 ≡ d.request0
      → d1.request1 ≡ d.request1
      → Effect d1.request0.done d1.request1.done d2.request0.done d2.request1.done w
      → Effect d.request0.done d.request1.done d2.request0.done d2.request1.done w
  Effect-cong d d1 d2 w e0 e1 h =
      subst
        (λ (r : FrameRequest). Effect r.done d.request1.done d2.request0.done d2.request1.done w) e0
        (subst
          (λ (r : FrameRequest). Effect d1.request0.done r.done d2.request0.done d2.request1.done w)
          e1 h)

  state_machine-Effect :
      (now : ℕ) (ret : ℤ) (d : Dev) (h : History)
      → let (r, h') = state_machine f k hz now ret d h in
        Effect d.request0.done d.request1.done r.0.request0.done r.0.request1.done r.1
  unfolding state_machine
  state_machine-Effect now ret d h = elim (Bool-cases d.suspended) [
    | inl asleep ↦ simp asleep (refl, refl)
    | inr awake ↦ elim (Bool-cases (nonzero ret)) [
      | inl missed ↦
          let s = keep_alive hz now d in
          simp (awake, missed)
            (Outcome-Effect d s.code s.dev s.queued (keep_alive-Kept hz now d).outcome)
      | inr got ↦
          let d1 = (drain f k d h).0 in
          let r = drain-Drained f cap is k d h in
          let s = keep_alive hz now d1 in
          simp (awake, got)
            (Effect-cong d d1 s.dev s.queued r.request0 r.request1
              (Outcome-Effect d1 s.code s.dev s.queued (keep_alive-Kept hz now d1).outcome))
    ]
  ]

  asked_lem :
      (m : VideoMode) (fourcc : ℕ) (t : Thread)
      → IsTracked t
      → IsTracked (asked (enable f t.dev m fourcc) t)
  unfolding enable
  asked_lem m fourcc t tracked = elim (Bool-cases (nonzero (video_mode_valid t.dev m))) [
    | inl bad ↦ rw bad tracked
    | inr good ↦ elim (Option-cases (find_desc fourcc)) [
      | inl none' ↦ rw (good, none') tracked
      | inr (desc, e) ↦ rw (good, e) tracked
    ]
  ]

  act-IsTracked :
      (a : Act) (t : Thread) (h : History) → IsTracked t → IsTracked (act f k hz a t h).0
  unfolding thread_round disable
  act-IsTracked (round now) t h tracked =
      let (r, h') = state_machine f k hz now (down_timeout t.sema).0 t.dev h in
      effect_lem t.dev.request0.done t.dev.request1.done r.0.request0.done r.0.request1.done r.1
        t.queued (state_machine-Effect now (down_timeout t.sema).0 t.dev h) tracked
  act-IsTracked (ask_enable m fourcc) t h tracked = asked_lem m fourcc t tracked
  act-IsTracked ask_disable t h tracked = tracked

  run_work-IsTracked :
      (outcome : Transfer) (i : ℕ) (t : Thread) (h : History)
      → 0 < count i t.queued
      → IsTracked t
      → IsTracked (run_work k outcome i t h).0
  unfolding run_work
  run_work-IsTracked outcome i t h waits tracked =
      let d = (frame_request_work k outcome i t.dev h).0 in
      let small = queued_bound t.dev.request0.done t.dev.request1.done i t.queued waits tracked in
      worked_lem t.dev.request0.done t.dev.request1.done d.request0.done d.request1.done i t.queued
        waits
        (freed_lem outcome i t.dev d (frame_request_work-Worked k outcome i t.dev h small) small)
        tracked

  -- An operation that leaves the requests alone.
  same-IsTracked :
      (t : Thread) (o : Option (ℤ × Dev)) (code : ℤ) (d : Dev)
      → SameRequests t.dev o
      → o ≡ some (code, d)
      → IsTracked t
      → IsTracked (record t { dev = d })
  same-IsTracked t o code d same e tracked =
      let (e0, e1) = subst (SameRequests t.dev) e same in
      effect_lem t.dev.request0.done t.dev.request1.done d.request0.done d.request1.done none
        t.queued (ap (λ (r : FrameRequest). r.done) e0, ap (λ (r : FrameRequest). r.done) e1)
        tracked

  Step-IsTracked : {t u : Thread} → Step f k hz t u → IsTracked t → IsTracked u
  Step-IsTracked (acts t a h) tracked = act-IsTracked a t h tracked
  Step-IsTracked (sends t p s e) tracked =
      effect_lem t.dev.request0.done t.dev.request1.done s.dev.request0.done s.dev.request1.done
        s.queued t.queued
        (send-Effect p.ms t.dev p.buf p.width p.height p.pitch p.x1 p.y1 p.x2 p.y2 s e) tracked
  Step-IsTracked (works t outcome i h waits) tracked =
      run_work-IsTracked outcome i t h waits tracked
  Step-IsTracked (draws t buf code d e) tracked =
      same-IsTracked t (cursor_set t.dev buf) code d (cursor_set-SameRequests t.dev buf) e tracked
  Step-IsTracked (moves t x y) tracked =
      let (code, d) = cursor_move t.dev x y in
      same-IsTracked t (some (code, d)) code d (cursor_move-SameRequests t.dev x y) refl tracked

  Reaches-IsTracked : {t : Thread} → Reaches f k hz t → IsTracked t
  unfolding count
  Reaches-IsTracked (fresh t free0 free1 none') = rw (free0, free1, none') (refl, refl, omega arith)
  Reaches-IsTracked (next t u r s) = Step-IsTracked s (Reaches-IsTracked r)

  run_all_lem :
      (outcome : ℕ → Transfer) (q : List ℕ) (t : Thread) (h : History)
      → t.queued ≡ q
      → IsTracked t
      → let (t', h') = run_all k outcome q t h in IsTracked t' × (t'.queued ≡ [])
  unfolding run_all run_work
  run_all_lem outcome [] t h e tracked = (tracked, e)
  run_all_lem outcome (i ∷ is) t h e tracked =
      let u = run_work k (outcome i) i t h in
      let rest : u.0.queued ≡ is = ap (remove i) e ∙ remove_head i is in
      let waits : 0 < count i t.queued = subst (λ q. 0 < count i q) (sym e) (count_head i is) in
      run_all_lem outcome is u.0 u.1 rest (run_work-IsTracked (outcome i) i t h waits tracked)

  -- For an event queue that passes on whole events in their order (`IsFifo`), whatever happens to an
  -- adapter whose requests were free, in any order: rounds of the thread, enables and disables,
  -- pictures, cursors and their moves with any arguments with which the call reads nothing out of
  -- bounds, and works of the worker with any outcome. A request is in use exactly if it is queued; it
  -- is queued once, and nothing else is. As soon as the worker has taken what is queued, with any outcome
  -- again, both requests are free.
  pub Reaches-served :
      (t : Thread) (outcome : ℕ → Transfer) (h : History)
      → Reaches f k hz t
      → let (t', h') = run_all k outcome t.queued t h in
        IsTracked t
        × (t'.queued ≡ [])
        × (t'.dev.request0.done ≡ true)
        × (t'.dev.request1.done ≡ true)
  Reaches-served t outcome h r =
      let tracked = Reaches-IsTracked r in
      let (t', h') = run_all k outcome t.queued t h in
      let (after, none') = run_all_lem outcome t.queued t h refl tracked in
      let both =
        Tracked-nil t'.dev.request0.done t'.dev.request1.done
          (subst (Tracked t'.dev.request0.done t'.dev.request1.done) none' after) in
      (tracked, none', both.0, both.1)
