-- ===== src/Hal/Thread.antt =====
-- src/usb_hal/usb_hal_thread.c, usb_hal_interface.c: the thread's rounds, what others ask of the adapter
-- between them, and the semaphore that wakes the thread up.
pub mod Serves
use ms912x.Base.{
  ℕ, zero, suc, ◌+◌, ◌-◌, ◌*◌, ◌/◌, ◌%◌, ◌^◌, ◌≤◌, ◌<◌, min, max, bit_and, bit_or, ◌≡◌, refl, sym,
  ap, ◌∙◌, subst, ◌≢◌, ◌↔◌, ◌⊎◌, inl, inr, Bool, true, false, not, ◌&&◌, ◌||◌, Option, none, some,
  List, [], ◌∷◌, ◌++◌, map, arith, ltb, leb, ◌==◌, if◌then◌else◌, ltb→lt, lt→ltb, leb→le, ==_iff,
  Bool-cases, Option-cases, length, get_elem?, get_or, set, take, drop, replicate, length-append,
  length-set, get_elem?-set_self, get_elem?-set_ne, get_elem?-lt, get_elem?-bound, get_elem?_past,
  length-take, length-drop, length-replicate, All, All-append,
}
use ms912x.Base.Int.{ℤ, negsuc, nonzero}
use ms912x.Usb.{Kernel, M, ◌>>=◌, pure, success}
use ms912x.Hal.Dev.{Dev, VideoMode}
use ms912x.Hal.Fifo.{Fifo}
use ms912x.Hal.Mode.{enable, disable}
use ms912x.Hal.Machine.{state_machine}

-- ETIME is 62.
abbrev pub e_time : ℤ
e_time = negsuc 61

-- An adapter with its semaphore, and the requests that were queued for the worker, the last one first.
pub record Thread : Type 0 where
  pub dev : Dev
  pub sema : ℕ
  pub queued : List ℕ

-- `down_timeout` when no `up` comes while it waits.
abbrev pub down_timeout : ℕ → ℤ × ℕ
down_timeout zero = (e_time, zero)
down_timeout (suc n) = (success, n)

abbrev pub queue_work : Option ℕ → List ℕ → List ℕ
queue_work none works = works
queue_work (some i) works = i ∷ works

-- A round with the semaphore, at `now` jiffies.
unfoldable pub thread_round : Fifo → Kernel → ℕ → ℕ → Thread → M Thread
thread_round f k hz now t = do
  (dev, work) ← state_machine f k hz now (down_timeout t.sema).0 t.dev
  pure (record { dev = dev; sema = (down_timeout t.sema).1; queued = queue_work work t.queued })

-- What can happen next: a round, or one of the two requests of DRM.
pub data Act : Type 0 where
  round : ℕ → Act
  ask_enable : VideoMode → ℕ → Act
  ask_disable : Act

-- A request that is accepted ends with `up`.
abbrev pub asked : ℤ × Dev → Thread → Thread
asked (ret, d) t =
    if nonzero ret then record t { dev = d } else record t { dev = d; sema = suc t.sema }

abbrev pub act : Fifo → Kernel → ℕ → Act → Thread → M Thread
act f k hz (round now) t = thread_round f k hz now t
act f k hz (ask_enable m fourcc) t = pure (asked (enable f t.dev m fourcc) t)
act f k hz ask_disable t = pure (asked (disable f t.dev) t)

-- The loop of `usb_hal_state_machine_entry`, with the requests that come between its rounds, up to
-- the round before which `usb_hal_stop_thread` clears the flag.
unfoldable pub thread_entry : Fifo → Kernel → ℕ → List Act → Thread → M Thread
thread_entry f k hz [] t = pure t
thread_entry f k hz (a ∷ acts) t = act f k hz a t >>= thread_entry f k hz acts
