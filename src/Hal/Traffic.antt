-- ===== src/Hal/Traffic.antt =====
-- src/usb_hal/usb_hal_interface.c, usb_hal_thread.c: what can happen to an adapter's frame requests, in
-- any order: rounds of the thread, requests, pictures and cursors of DRM, and the worker.
pub mod Queue
pub mod Sends
pub mod Tracked
use ms912x.Base.{
  ℕ, zero, suc, ◌+◌, ◌-◌, ◌*◌, ◌/◌, ◌%◌, ◌^◌, ◌≤◌, ◌<◌, min, max, bit_and, bit_or, ◌≡◌, refl, sym,
  ap, ◌∙◌, subst, ◌≢◌, ◌↔◌, ◌⊎◌, inl, inr, Bool, true, false, not, ◌&&◌, ◌||◌, Option, none, some,
  List, [], ◌∷◌, ◌++◌, map, arith, ltb, leb, ◌==◌, if◌then◌else◌, ltb→lt, lt→ltb, leb→le, ==_iff,
  Bool-cases, Option-cases, length, get_elem?, get_or, set, take, drop, replicate, length-append,
  length-set, get_elem?-set_self, get_elem?-set_ne, get_elem?-lt, get_elem?-bound, get_elem?_past,
  length-take, length-drop, length-replicate, All, All-append,
}
use ms912x.Usb.{Kernel, History, M, ◌>>=◌, pure}
use ms912x.Base.Int.{ℤ}
use ms912x.Hal.Dev.{Dev}
use ms912x.Hal.Cursor.{cursor_set, cursor_move}
use ms912x.Hal.Fifo.{Fifo}
use ms912x.Hal.Request.{Sent, send_xrgb8888_rect, Transfer, frame_request_work}
use ms912x.Hal.Thread.{Thread, queue_work, Act, act}

-- The arguments of `usb_hal_send_xrgb8888_rect`, and the time that the packing takes.
pub record Picture : Type 0 where
  pub ms : ℕ
  pub buf : List ℕ
  pub width : ℕ
  pub height : ℕ
  pub pitch : ℕ
  pub x1 : ℤ
  pub y1 : ℤ
  pub x2 : ℕ
  pub y2 : ℕ

abbrev pub send : Dev → Picture → Option Sent
send d p = send_xrgb8888_rect p.ms d p.buf p.width p.height p.pitch p.x1 p.y1 p.x2 p.y2

abbrev pub submitted : Thread → Sent → Thread
submitted t s = record t { dev = s.dev; queued = queue_work s.queued t.queued }

-- The worker takes a request that was queued.
pub remove : ℕ → List ℕ → List ℕ
remove i [] = []
remove i (x ∷ xs) = if x == i then xs else x ∷ remove i xs

pub run_work : Kernel → Transfer → ℕ → Thread → M Thread
run_work k outcome i t = do
  d ← frame_request_work k outcome i t.dev
  pure (record t { dev = d; queued = remove i t.queued })

-- How often request `i` is queued.
pub count : ℕ → List ℕ → ℕ
count i [] = 0
count i (x ∷ xs) = if x == i then suc (count i xs) else count i xs

-- One step. The arguments of a picture and of a cursor are any with which the call returns: `none` is a read
-- out of bounds.
pub data Step (f : Fifo) (k : Kernel) (hz : ℕ) : Thread → Thread → Type 0 where
  acts : (t : Thread) (a : Act) (h : History) → Step f k hz t (act f k hz a t h).0
  sends :
      (t : Thread) (p : Picture) (s : Sent) → send t.dev p ≡ some s → Step f k hz t (submitted t s)
  works :
      (t : Thread) (outcome : Transfer) (i : ℕ) (h : History)
      → 0 < count i t.queued
      → Step f k hz t (run_work k outcome i t h).0
  draws :
      (t : Thread) (buf : Option (List ℕ)) (code : ℤ) (d : Dev)
      → cursor_set t.dev buf ≡ some (code, d)
      → Step f k hz t (record t { dev = d })
  moves : (t : Thread) (x y : ℤ) → Step f k hz t (record t { dev = (cursor_move t.dev x y).1 })

-- Any steps from an adapter whose requests are free.
pub data Reaches (f : Fifo) (k : Kernel) (hz : ℕ) : Thread → Type 0 where
  fresh :
      (t : Thread)
      → t.dev.request0.done ≡ true
      → t.dev.request1.done ≡ true
      → t.queued ≡ []
      → Reaches f k hz t
  next : (t u : Thread) → Reaches f k hz t → Step f k hz t u → Reaches f k hz u

-- The worker takes the requests of a list, in its order.
pub run_all : Kernel → (ℕ → Transfer) → List ℕ → Thread → M Thread
run_all k outcome [] t = pure t
run_all k outcome (i ∷ is) t = run_work k (outcome i) i t >>= run_all k outcome is
