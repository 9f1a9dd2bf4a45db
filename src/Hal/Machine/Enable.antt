-- ===== src/Hal/Machine/Enable.antt =====
-- src/usb_hal: from `usb_hal_enable` to the commands that the thread sends for it.
use ms912x.Base.{ℕ, ◌<◌, ◌≡◌, refl, ap, ◌∙◌, subst, false, some, List, [], ◌∷◌}
use ms912x.Usb.{Kernel, History, success}
use ms912x.Device.Event.{Event, event_type_enable, event_proc}
use ms912x.Hal.Dev.{Dev, DevState, VideoMode}
use ms912x.Hal.Fifo.{Fifo, IsFifo}
use ms912x.Hal.Mode.{
  FormatDesc, video_mode_valid, find_desc, enable, enabled_with, enable_event, color_out_for,
}
use ms912x.Hal.Mode.Laws.{enable_accepts}
use ms912x.Hal.Machine.{drain}
use ms912x.Hal.Machine.Events.{
  Accepts, Runs, done, takes, drops, first_enable, again_enable, disable, Drained, drain-Drained,
  serve,
}
use ms912x.Hal.Machine.Order.{is_on}

-- The state takes an enable event.
abbrev pub IsOff : Dev → Type 0
IsOff d = is_on d.state ≡ false

refused :
    (s : DevState) (e : Event)
    → is_on s ≡ false
    → e.kind ≡ event_type_enable
    → ((s' : DevState) → Accepts s e s' → ⊥)
    → ⊥
refused DevState.unknown e off h n = n _ (first_enable h)
refused DevState.disabled e off h n = n _ (again_enable h)
refused DevState.enabled e off h n = cc

one_enable :
    {s t : DevState} {e : Event} {out : List Event}
    → is_on s ≡ false
    → e.kind ≡ event_type_enable
    → Runs s (e ∷ []) out t
    → (out ≡ e ∷ []) × (t ≡ DevState.enabled)
one_enable off h (takes (first_enable x) done) = (refl, refl)
one_enable off h (takes (again_enable x) done) = (refl, refl)
one_enable off h (takes (disable x) done) = cc
one_enable {s = s} {e = e} off h (drops n done) = absurd (refused s e off h n)

one-Drained :
    (k : Kernel) (d : Dev) (q : List Event) (e : Event) (r : Dev × History) (h : History)
    → Drained k d q r h
    → q ≡ e ∷ []
    → IsOff d
    → e.kind ≡ event_type_enable
    → (r.0.state ≡ DevState.enabled) × (r.1 ≡ (event_proc k e d.chip_id d.port_type h).1)
one-Drained k d q e r h dr one off kind =
    let at_ = one_enable off kind (subst (λ q. Runs d.state q dr.out r.0.state) one dr.runs) in
    (at_.1, dr.served ∙ ap (λ es. serve k d.chip_id d.port_type es h) at_.0)

-- The drain after an accepted request.
pub enabled_with-Drained :
    (f : Fifo) (cap : ℕ) (k : Kernel) (d : Dev) (m : VideoMode) (desc : FormatDesc) (h : History)
    → IsFifo f cap
    → 0 < cap
    → d.fifo ≡ []
    → IsOff d
    → let event = enable_event (record d { color_out = color_out_for desc; vpack_in = 2 }) m in
      let (d'', h') = drain f k (enabled_with f d m desc) h in
      (d''.state ≡ DevState.enabled)
      × ((d''.mode ≡ m) × (h' ≡ (event_proc k event d.chip_id d.port_type h).1))
enabled_with-Drained f cap k d m desc h is room nil off =
    let d1 = enabled_with f d m desc in
    let event = enable_event (record d { color_out = color_out_for desc; vpack_in = 2 }) m in
    let queue : d1.fifo ≡ event ∷ [] = rw nil (is.kfifo_in_room [] event room) in
    let r = drain-Drained f cap is k d1 h in
    let one = one-Drained k d1 d1.fifo event (drain f k d1 h) h r queue off refl in
    (one.0, (r.mode, one.1))

-- For an adapter that is not enabled and whose queue is empty, a valid mode and a known format: the
-- request succeeds, and the thread's next drain runs `event_proc` once, on an enable event with the
-- mode's width, height and vic and the formats of the pixel format, and ends in the enabled state.
enable_reaches_chip :
    (f : Fifo) (cap : ℕ) (k : Kernel) (d : Dev) (m : VideoMode) (fourcc : ℕ) (desc : FormatDesc)
    (h : History)
    → IsFifo f cap
    → 0 < cap
    → d.fifo ≡ []
    → IsOff d
    → video_mode_valid d m ≡ success
    → find_desc fourcc ≡ some desc
    → let (code, d') = enable f d m fourcc in
      let event = enable_event (record d { color_out = color_out_for desc; vpack_in = 2 }) m in
      let (d'', h') = drain f k d' h in
      (code ≡ success)
      × ((d''.state ≡ DevState.enabled)
          × ((d''.mode ≡ m) × (h' ≡ (event_proc k event d.chip_id d.port_type h).1)))
enable_reaches_chip f cap k d m fourcc desc h is room nil off valid known =
    rw (enable_accepts f d m fourcc desc valid known)
      (refl, enabled_with-Drained f cap k d m desc h is room nil off)
