-- ===== src/Hal/Machine/Events.antt =====
-- src/usb_hal/usb_hal_thread.c: the loop over the events as a state machine on the queue.
use ms912x.Base.{
  ℕ, ◌≡◌, refl, ◌∙◌, ◌≢◌, ◌⊎◌, inl, inr, false, some, List, [], ◌∷◌, arith, ◌==◌, ==_iff,
  Bool-cases, length,
}
use ms912x.Usb.{Kernel, History}
use ms912x.Device.Event.{Event, event_type_enable, event_type_disable, event_proc}
use ms912x.Hal.Dev.{Dev, DevState}
use ms912x.Hal.Fifo.{Fifo, IsFifo}
use ms912x.Hal.Machine.{do_enable, do_disable, state_unknown, handle, handle_in, drain_from, drain}

-- The events that change a state: an enable unless it is enabled, a disable if it is.
pub data Accepts : DevState → Event → DevState → Type 0 where
  first_enable :
      {e : Event} → e.kind ≡ event_type_enable → Accepts DevState.unknown e DevState.enabled
  again_enable :
      {e : Event} → e.kind ≡ event_type_enable → Accepts DevState.disabled e DevState.enabled
  disable : {e : Event} → e.kind ≡ event_type_disable → Accepts DevState.enabled e DevState.disabled

-- A run of a state over a queue: the events that it accepts, in order, and the state at the end. An
-- event that no step accepts is dropped.
pub data Runs : DevState → List Event → List Event → DevState → Type 0 where
  done : {s : DevState} → Runs s [] [] s
  takes :
      {s s' t : DevState} {e : Event} {q out : List Event}
      → Accepts s e s'
      → Runs s' q out t
      → Runs s (e ∷ q) (e ∷ out) t
  drops :
      {s t : DevState} {e : Event} {q out : List Event}
      → ((s' : DevState) → Accepts s e s' → ⊥)
      → Runs s q out t
      → Runs s (e ∷ q) out t

-- `event_proc` on each of the events.
abbrev pub serve : Kernel → ℕ → ℕ → List Event → History → History
serve k chip_id port_type [] h = h
serve k chip_id port_type (e ∷ es) h =
    serve k chip_id port_type es (event_proc k e chip_id port_type h).1

-- What a drain leaves: the events of a run given to the chip, in order, and the run's last state; the
-- rest but `first_buf_send` is as it was, the queue apart.
pub record Drained (k : Kernel) (d : Dev) (q : List Event) (r : Dev × History) (h : History)
    : Type 0 where
  pub out : List Event
  pub runs : Runs d.state q out r.0.state
  pub served : r.1 ≡ serve k d.chip_id d.port_type out h
  pub empty : r.0.fifo ≡ []
  pub mode : r.0.mode ≡ d.mode
  pub bus : r.0.suspended ≡ d.suspended
  pub request0 : r.0.request0 ≡ d.request0
  pub request1 : r.0.request1 ≡ d.request1

record Handled (k : Kernel) (e : Event) (d : Dev) (r : Dev × History) (h : History) : Type 0 where
  step :
      (Accepts d.state e r.0.state × (r.1 ≡ (event_proc k e d.chip_id d.port_type h).1))
      ⊎ (((s' : DevState) → Accepts d.state e s' → ⊥) × ((r.0.state ≡ d.state) × (r.1 ≡ h)))
  chip : r.0.chip_id ≡ d.chip_id
  port : r.0.port_type ≡ d.port_type
  queue : r.0.fifo ≡ d.fifo
  mode : r.0.mode ≡ d.mode
  bus : r.0.suspended ≡ d.suspended
  request0 : r.0.request0 ≡ d.request0
  request1 : r.0.request1 ≡ d.request1

State-cases :
    (s : DevState) → (s ≡ DevState.enabled) ⊎ ((s ≡ DevState.unknown) ⊎ (s ≡ DevState.disabled))
State-cases DevState.enabled = inl refl
State-cases DevState.unknown = inr (inl refl)
State-cases DevState.disabled = inr (inr refl)

enable_only :
    (s s' : DevState) (e : Event)
    → (s ≢ DevState.enabled)
    → Accepts s e s'
    → e.kind ≡ event_type_enable
enable_only s s' e ne (first_enable h) = h
enable_only s s' e ne (again_enable h) = h
enable_only s s' e ne (disable h) = absurd (ne refl)

disable_only :
    (s' : DevState) (e : Event) → Accepts DevState.enabled e s' → e.kind ≡ event_type_disable
disable_only s' e (disable h) = h

differs : {a b : ℕ} → (a == b) ≡ false → a ≡ b → ⊥
differs e h = ground arith

module _ (k : Kernel) (e : Event) (d : Dev) (h : History) where
  unknown_lem :
      d.state ≢ DevState.enabled
      → (e.kind ≡ event_type_enable → Accepts d.state e DevState.enabled)
      → Handled k e d (state_unknown k e d h) h
  unfolding state_unknown do_enable
  unknown_lem ne acc = elim (Bool-cases (e.kind == event_type_enable)) [
    | inl yes' ↦ simp yes' (record {
      step = inl (acc ((==_iff _ _).0 yes'), refl);
      chip = refl;
      port = refl;
      queue = refl;
      mode = refl;
      bus = refl;
      request0 = refl;
      request1 = refl;
    })
    | inr no' ↦ simp no' (record {
      step = inr ((λ s' a. differs no' (enable_only d.state s' e ne a)), (refl, refl));
      chip = refl;
      port = refl;
      queue = refl;
      mode = refl;
      bus = refl;
      request0 = refl;
      request1 = refl;
    })
  ]

  handle_lem : (s : DevState) → d.state ≡ s → Handled k e d (handle_in s k e d h) h
  unfolding handle_in do_disable
  handle_lem DevState.unknown at_ = unknown_lem (rw at_ (λ x. cc)) (λ x. rw at_ (first_enable x))
  handle_lem DevState.disabled at_ = unknown_lem (rw at_ (λ x. cc)) (λ x. rw at_ (again_enable x))
  handle_lem DevState.enabled at_ = elim (Bool-cases (e.kind == event_type_disable)) [
    | inl yes' ↦ simp yes' (record {
      step = inl (rw at_ (disable ((==_iff _ _).0 yes')), refl);
      chip = refl;
      port = refl;
      queue = refl;
      mode = refl;
      bus = refl;
      request0 = refl;
      request1 = refl;
    })
    | inr no' ↦ simp no' (record {
      step = inr ((λ s' a. differs no' (disable_only s' e (rw at_ at a))), (refl, refl));
      chip = refl;
      port = refl;
      queue = refl;
      mode = refl;
      bus = refl;
      request0 = refl;
      request1 = refl;
    })
  ]

serve_eq :
    (k : Kernel) (out : List Event) {c c' p p' : ℕ} {h h' : History}
    → c ≡ c'
    → p ≡ p'
    → h ≡ h'
    → serve k c p out h ≡ serve k c' p' out h'
serve_eq k out ec ep eh = rw (ec, ep, eh) refl

module _ (f : Fifo) (cap : ℕ) (is : IsFifo f cap) (k : Kernel) where
  drain_from_lem :
      (q : List Event) (d : Dev) (h : History)
      → d.fifo ≡ q
      → Drained k d q (drain_from (length q) f k d h) h
  unfolding drain_from
  drain_from_lem [] d h e = record {
    out = [];
    runs = done;
    served = refl;
    empty = e;
    mode = refl;
    bus = refl;
    request0 = refl;
    request1 = refl;
  }
  drain_from_lem (x ∷ q) d h e =
      let next : f.kfifo_out d.fifo ≡ some (x, q) = rw e (is.kfifo_out_cons x q) in
      let d1 = record d { fifo = q } in
      let s = handle_lem k x d1 h d1.state refl in
      let r = handle k x d1 h in
      let rest = drain_from_lem q r.0 r.1 s.queue in
      simp next (elim s.step [
        | inl (a, g) ↦ record {
          out = x ∷ rest.out;
          runs = takes a rest.runs;
          served = rest.served ∙ serve_eq k rest.out s.chip s.port g;
          empty = rest.empty;
          mode = rest.mode ∙ s.mode;
          bus = rest.bus ∙ s.bus;
          request0 = rest.request0 ∙ s.request0;
          request1 = rest.request1 ∙ s.request1;
        }
        | inr (none', (st, g)) ↦ record {
          out = rest.out;
          runs = drops none' (rw st at rest.runs);
          served = rest.served ∙ serve_eq k rest.out s.chip s.port g;
          empty = rest.empty;
          mode = rest.mode ∙ s.mode;
          bus = rest.bus ∙ s.bus;
          request0 = rest.request0 ∙ s.request0;
          request1 = rest.request1 ∙ s.request1;
        }
      ])

  -- Where the FIFO passes on whole events in order, the loop empties it, whatever is in it and whatever
  -- the chip answers. The chip is given the events that the state machine accepts, in order and no
  -- others, and the adapter's state is the last one of that run; the mode is not changed.
  pub drain-Drained : (d : Dev) (h : History) → Drained k d d.fifo (drain f k d h) h
  unfolding drain
  drain-Drained d h = drain_from_lem d.fifo d h refl
