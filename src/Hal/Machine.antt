-- ===== src/Hal/Machine.antt =====
-- src/usb_hal/usb_hal_thread.c: the thread that serves an adapter's events and keeps its picture alive.
-- `jiffies` and the code of `down_timeout` are parameters of a round.
pub mod Events
pub mod Order
pub mod Alive
pub mod Enable
pub mod Round
use ms912x.Base.{
  ℕ, zero, suc, ◌+◌, ◌-◌, ◌*◌, ◌/◌, ◌%◌, ◌^◌, ◌≤◌, ◌<◌, min, max, bit_and, bit_or, ◌≡◌, refl, sym,
  ap, ◌∙◌, ◌≢◌, ◌↔◌, ◌⊎◌, inl, inr, Bool, true, false, not, ◌&&◌, ◌||◌, Option, none, some, List,
  [], ◌∷◌, ◌++◌, map, arith, ltb, leb, ◌==◌, if◌then◌else◌, ltb→lt, lt→ltb, leb→le, ==_iff,
  Bool-cases, Option-cases, length, get_elem?, get_or, set, take, drop, replicate, length-append,
  length-set, get_elem?-set_self, get_elem?-set_ne, get_elem?-lt, get_elem?_past, length-take,
  length-drop, length-replicate, All, All-append,
}
use ms912x.Base.Int.{pos, ◌==ℤ◌, ℤ, nonzero}
use ms912x.Usb.{success, Kernel, M, ◌>>=◌, ◌>>◌, pure}
use ms912x.Device.Event.{Event, event_type_enable, event_type_disable, event_proc}
use ms912x.Hal.Dev.{Dev, DevState}
use ms912x.Hal.Fifo.{Fifo}
use ms912x.Hal.Request.{is_enabled, Sent, sent, send_keepalive, e_busy}

pub do_enable : Kernel → Event → Dev → M Dev
do_enable k event d = do
  ret ← event_proc k event d.chip_id d.port_type
  pure (record d { state = DevState.enabled; first_buf_send = false })

pub do_disable : Kernel → Event → Dev → M Dev
do_disable k event d = do
  ret ← event_proc k event d.chip_id d.port_type
  pure (record d { state = DevState.disabled })

-- `usb_hal_dev_state_unknown`.
pub state_unknown : Kernel → Event → Dev → M Dev
state_unknown k event d =
    if not (event.kind == event_type_enable) then pure d else do_enable k event d

-- The `switch` on the state.
pub handle_in : DevState → Kernel → Event → Dev → M Dev
handle_in DevState.unknown k event d = state_unknown k event d
handle_in DevState.disabled k event d = state_unknown k event d
handle_in DevState.enabled k event d =
    if event.kind == event_type_disable then do_disable k event d else pure d

abbrev pub handle : Kernel → Event → Dev → M Dev
handle k event d = handle_in d.state k event d

-- The `while` loop on `kfifo_out`, on `n` rounds of fuel; the length of the FIFO is enough.
pub drain_from : ℕ → Fifo → Kernel → Dev → M Dev
drain_from zero f k d = pure d
drain_from (suc n) f k d = elim (f.kfifo_out d.fifo) [
  | none ↦ pure d
  | some p ↦ handle k p.0 (record d { fifo = p.1 }) >>= drain_from n f k
]

pub drain : Fifo → Kernel → Dev → M Dev
drain f k d = drain_from (length d.fifo) f k d

-- `time_after(a, b)` of linux/jiffies.h: the difference as a signed 64-bit number is negative.
pub time_after : ℕ → ℕ → Bool
time_after a b = leb (2 ^ 63) ((b + (2 ^ 64 - a)) % 2 ^ 64)

-- The end of a round; `hz` is HZ.
pub keep_alive : ℕ → ℕ → Dev → Sent
keep_alive hz now d =
    if not (is_enabled d) || not d.first_buf_send
    then sent success d none
    else if time_after now ((d.last_send_jiffies + 2 * hz) % 2 ^ 64)
    then (let s = send_keepalive d in
        if nonzero s.code && not (s.code ==ℤ e_busy)
        then record s { dev = record s.dev { last_send_jiffies = now } }
        else s)
    else sent success d none

-- One round of `usb_hal_state_machine`: the adapter after it, and the request that it queued.
unfoldable pub state_machine : Fifo → Kernel → ℕ → ℕ → ℤ → Dev → M (Dev × Option ℕ)
state_machine f k hz now ret d = if d.suspended then pure (d, none) else (do
  d' ← if nonzero ret then pure d else drain f k d
  pure ((keep_alive hz now d').dev, (keep_alive hz now d').queued))
