-- ===== src/Hal/Machine/Order.antt =====
-- src/usb_hal/usb_hal_thread.c: what the state machine's runs have in common.
use ms912x.Base.{
  ℕ, ◌≡◌, refl, subst, ◌↔◌, ◌⊎◌, inl, inr, Bool, true, false, List, [], ◌∷◌, ◌++◌, arith,
}
use ms912x.Device.Event.{Event, event_type_enable, event_type_disable}
use ms912x.Usb.{Kernel, History}
use ms912x.Hal.Dev.{Dev, DevState}
use ms912x.Hal.Fifo.{Fifo, IsFifo}
use ms912x.Hal.Machine.{drain}
use ms912x.Hal.Machine.Events.{
  Accepts, first_enable, again_enable, disable, Runs, drain-Drained, serve, done, takes, drops,
}

-- Events that enable and disable in turn; the flag says whether a disable is next.
pub data Alternates : Bool → List Event → Type 0 where
  ends : {on : Bool} → Alternates on []
  enables :
      {e : Event} {es : List Event}
      → e.kind ≡ event_type_enable
      → Alternates true es
      → Alternates false (e ∷ es)
  disables :
      {e : Event} {es : List Event}
      → e.kind ≡ event_type_disable
      → Alternates false es
      → Alternates true (e ∷ es)

abbrev pub is_on : DevState → Bool
is_on DevState.enabled = true
is_on DevState.unknown = false
is_on DevState.disabled = false

-- The events that a run gives to the chip are enables and disables in turn, a disable being the
-- first one exactly if the adapter is enabled at the start.
out-Alternates : {s t : DevState} {q out : List Event} → Runs s q out t → Alternates (is_on s) out
out-Alternates done = ends
out-Alternates (takes (first_enable e) r) = enables e (out-Alternates r)
out-Alternates (takes (again_enable e) r) = enables e (out-Alternates r)
out-Alternates (takes (disable e) r) = disables e (out-Alternates r)
out-Alternates (drops n r) = out-Alternates r

unlike : {n : ℕ} → n ≡ event_type_enable → n ≡ event_type_disable → ⊥
unlike a b = omega arith

accepted_lem :
    {s t : DevState} {e : Event} → Accepts s e t → (is_on t ≡ true) ↔ (e.kind ≡ event_type_enable)
accepted_lem (first_enable e) = ((λ x. e), (λ x. refl))
accepted_lem (again_enable e) = ((λ x. e), (λ x. refl))
accepted_lem (disable e) = ((λ x. cc), (λ x. absurd (unlike x e)))

dropped_lem :
    (s : DevState) (e : Event)
    → ((s' : DevState) → Accepts s e s' → ⊥)
    → (e.kind ≡ event_type_enable) ⊎ (e.kind ≡ event_type_disable)
    → (is_on s ≡ true) ↔ (e.kind ≡ event_type_enable)
dropped_lem DevState.unknown e n (inl x) = absurd (n _ (first_enable x))
dropped_lem DevState.disabled e n (inl x) = absurd (n _ (again_enable x))
dropped_lem DevState.enabled e n (inl x) = ((λ y. x), (λ y. refl))
dropped_lem DevState.unknown e n (inr x) = ((λ y. cc), (λ y. absurd (unlike y x)))
dropped_lem DevState.disabled e n (inr x) = ((λ y. cc), (λ y. absurd (unlike y x)))
dropped_lem DevState.enabled e n (inr x) = absurd (n _ (disable x))

-- A run over a queue that ends with an enable ends in the enabled state; over one that ends with a
-- disable it does not.
last_event_decides :
    {s t : DevState} (q : List Event) (e : Event) {out : List Event}
    → Runs s (q ++ e ∷ []) out t
    → (e.kind ≡ event_type_enable) ⊎ (e.kind ≡ event_type_disable)
    → (is_on t ≡ true) ↔ (e.kind ≡ event_type_enable)
last_event_decides [] e (takes a done) h = accepted_lem a
last_event_decides [] e (drops n done) h = dropped_lem _ e n h
last_event_decides (x ∷ q) e (takes a r) h = last_event_decides q e r h
last_event_decides (x ∷ q) e (drops n r) h = last_event_decides q e r h

-- The events that a drain gives to the chip are enables and disables in turn, whatever the queue holds;
-- a disable is the first one exactly if the adapter is enabled at the start.
drain-Alternates :
    (f : Fifo) (cap : ℕ) (is : IsFifo f cap) (k : Kernel) (d : Dev) (h : History)
    → (out : List Event) × (Alternates (is_on d.state) out
        × ((drain f k d h).1 ≡ serve k d.chip_id d.port_type out h))
drain-Alternates f cap is k d h =
    let r = drain-Drained f cap is k d h in (r.out, (out-Alternates r.runs, r.served))

-- After a drain of a queue whose last event is an enable or a disable, the adapter is enabled exactly if
-- it is an enable.
drain_last_event :
    (f : Fifo) (cap : ℕ) (is : IsFifo f cap) (k : Kernel) (d : Dev) (h : History) (q : List Event)
    (e : Event)
    → d.fifo ≡ q ++ e ∷ []
    → (e.kind ≡ event_type_enable) ⊎ (e.kind ≡ event_type_disable)
    → (is_on (drain f k d h).0.state ≡ true) ↔ (e.kind ≡ event_type_enable)
drain_last_event f cap is k d h q e eq kind =
    let r = drain-Drained f cap is k d h in
    last_event_decides q e (subst (λ q. Runs d.state q r.out (drain f k d h).0.state) eq r.runs)
      kind
