-- ===== src/Drm/Crtc/Events.antt =====
-- src/drm/msdisp_drm_modeset.c, msdisp_drm_drv.c: where an event of a CRTC goes.
use mathlib.Core.List.{Perm}
use mathlib.Core.List.Perm as Perm
use ms912x.Base.{
  ℕ, zero, suc, ◌≡◌, refl, ap, ◌∙◌, inl, inr, Bool, true, false, ◌&&◌, Option, none, some, List, [],
  ◌∷◌, if◌then◌else◌, Option-cases, get_elem?, set,
}
use ms912x.Drm.Pipelines.{Pipeline, DrmDevice, VblankEvent}
use ms912x.Drm.Crtc.{
  CrtcState, hand_over, given, get_pipeline_by_crtc, update_event, atomic_flush, timer_pipelines,
  timer_func,
}

sent_lem :
    (ps : List Pipeline) (i : ℕ) (p : Pipeline) (e : VblankEvent)
    → get_elem? ps i ≡ some p
    → p.event ≡ none
    → Perm (timer_pipelines (set ps i (record p { event = some e }))).1 (e ∷ (timer_pipelines ps).1)
unfolding timer_pipelines
sent_lem [] i p e at_ free = cc
sent_lem (q ∷ ps) zero p e at_ free =
    let same : q ≡ p = cc in
    let idle : q.event ≡ none = ap (λ (x : Pipeline). x.event) same ∙ free in rw idle Perm.rfl
sent_lem (q ∷ ps) (suc i) p e at_ free = elim (Option-cases q.event) [
  | inl idle ↦ rw idle (sent_lem ps i p e at_ free)
  | inr (e', busy) ↦
      rw busy (Perm.trans (Perm.cons e' (sent_lem ps i p e at_ free)) (Perm.swap e e' _))
]

all_sent : (ps : List Pipeline) → (timer_pipelines (timer_pipelines ps).0).1 ≡ []
unfolding timer_pipelines
all_sent [] = refl
all_sent (p ∷ ps) = all_sent ps

if_both : {A : Type 0} (b : Bool) (x y : A) → b ≡ true → (if b && true then x else y) ≡ x
if_both true x y e = refl
if_both false x y e = cc

pub hand_over_lem :
    (d : DrmDevice) (index : ℕ) (s : CrtcState) (o : Option ℕ) (w : Option VblankEvent) {i : ℕ}
    {p : Pipeline} {e : VblankEvent}
    → o ≡ some i
    → get_elem? d.pipeline i ≡ some p
    → w ≡ some e
    → hand_over d o index s w
      ≡ some (record d { pipeline = set d.pipeline i (given e index p) }, record s { event = none })
hand_over_lem d index s o w found at_ event = rw (found, event, at_) refl

-- An event that a flush of an active CRTC finds is handed over to the CRTC's pipeline, if that holds
-- none: the next round of the timer sends it, with the CRTC's index, beside what it would send
-- anyway, and the round after that sends nothing more.
pub timer_func-atomic_flush :
    (d : DrmDevice) (crtc index i : ℕ) (s : CrtcState) (p : Pipeline) (e : VblankEvent)
    → get_pipeline_by_crtc d crtc ≡ some i
    → get_elem? d.pipeline i ≡ some p
    → p.event ≡ none
    → s.event ≡ some e
    → s.active ≡ true
    → (d' : DrmDevice) × ((atomic_flush d crtc index true s ≡ some (d', record s { event = none }))
        × (Perm (timer_func d').1 (record e { pipe = index } ∷ (timer_func d).1)
            × ((timer_func (timer_func d').0).1 ≡ [])))
unfolding atomic_flush update_event timer_func
timer_func-atomic_flush d crtc index i s p e found at_ free event active =
    let p' : Pipeline = given e index p in
    let d' : DrmDevice = record d { pipeline = set d.pipeline i p' } in
    (
      d',
      (
        if_both s.active _ _ active ∙ hand_over_lem d index s _ _ found at_ event,
        (sent_lem d.pipeline i p (record e { pipe = index }) at_ free, all_sent d'.pipeline),
      ),
    )
