-- ===== src/Drm/Pipelines/Laws.antt =====
-- src/drm/msdisp_drm_interface.c: a new adapter gets a pipeline of its own.
use ms912x.Base.{
  get_elem?-bound, ℕ, suc, ◌+◌, ◌*◌, ◌≤◌, ◌<◌, ◌≡◌, refl, sym, ap, ◌∙◌, inl, inr, true, false,
  Option, none, some, List, [], ◌∷◌, arith, leb, ◌==◌, ==_iff, Bool-cases, Option-cases, length,
  get_elem?, set, get_elem?-set_self,
}
use ms912x.Usb.{success}
use ms912x.Hal.Request.{e_busy}
use ms912x.Drm.Pipelines.{
  Pipeline, DrmDevice, has_free, has_free_pipeline, get_free_device, drm_device_index_from,
  get_drm_device_index, free_from, get_free_pipeline_index, get_pipeline_global_id, registered,
  enable_call, register_usb_hal, max_pipeline_cnt,
}

-- The pipeline at an index is free.
abbrev pub FreeAt : List Pipeline → ℕ → Type 0
FreeAt ps i = (p : Pipeline) × ((get_elem? ps i ≡ some p) × (p.reg_flag ≡ false))

free_from_lem :
    (ps : List Pipeline) (i : ℕ)
    → has_free ps ≡ true
    → (j : ℕ) × ((free_from i ps ≡ some (i + j)) × FreeAt ps j)
unfolding has_free free_from
free_from_lem [] i e = cc
free_from_lem (p ∷ ps) i e = elim (Bool-cases p.reg_flag) [
  | inr free ↦ let z : i ≡ i + 0 = omega arith in (0, (simp free (ap some z), (p, (refl, free))))
  | inl used ↦
      let (j, (f, g)) = free_from_lem ps (i + 1) (simp used at e) in
      let z : i + 1 + j ≡ i + suc j = omega arith in (suc j, (simp used (f ∙ ap some z), g))
]

get_free_device_lem :
    (ds : List (Option DrmDevice)) (d : DrmDevice)
    → get_free_device ds ≡ some d
    → has_free_pipeline d ≡ true
unfolding get_free_device
get_free_device_lem [] d e = cc
get_free_device_lem (none ∷ ds) d e = get_free_device_lem ds d e
get_free_device_lem (some x ∷ ds) d e = elim (Bool-cases (has_free_pipeline x)) [
  | inl free ↦ let eq : some x ≡ some d = rw free at e in let same : x ≡ d = cc in rw (← same) free
  | inr full ↦ get_free_device_lem ds d (rw full at e)
]

register_free :
    (d : DrmDevice) (i hal : ℕ) (p : Pipeline)
    → i < 3
    → get_elem? d.pipeline i ≡ some p
    → p.reg_flag ≡ false
    → register_usb_hal d i hal
      ≡ some (success, record d { pipeline = set d.pipeline i (registered p hal) }, enable_call p)
unfolding register_usb_hal
register_free d i hal p lt at_ free =
    let small : leb max_pipeline_cnt i ≡ false = ground arith in simp (small, at_, free)

-- If a device is found for a new adapter, it has a free pipeline, and registering the adapter there
-- succeeds: the pipeline is the adapter's then, the others are as they were, and the adapter is
-- enabled in the pipeline's mode if DRM has it enabled.
pub probe_registers :
    (ds : List (Option DrmDevice)) (d : DrmDevice) (hal : ℕ)
    → length d.pipeline ≤ 3
    → get_free_device ds ≡ some d
    → (i : ℕ) × ((p : Pipeline) × ((get_free_pipeline_index d ≡ some i)
          × ((get_elem? d.pipeline i ≡ some p)
              × ((p.reg_flag ≡ false)
                  × (register_usb_hal d i hal
                      ≡ some (
                        success,
                        record d { pipeline = set d.pipeline i (registered p hal) },
                        enable_call p,
                      ))))))
unfolding get_free_pipeline_index has_free_pipeline
probe_registers ds d hal le e =
    let (i, (found, (p, (at_, free)))) = free_from_lem d.pipeline 0 (get_free_device_lem ds d e) in
    let z : 0 + i ≡ i = omega arith in
    let lt : i < 3 = omega (arith, get_elem?-bound d.pipeline i at_) in
    (i, (p, (found ∙ ap some z, (at_, (free, register_free d i hal p lt at_ free)))))

-- A pipeline that has an adapter refuses another one with -EBUSY and stays as it is.
pub register_twice :
    (d : DrmDevice) (i hal other : ℕ) (p : Pipeline)
    → i < 3
    → get_elem? d.pipeline i ≡ some p
    → p.reg_flag ≡ false
    → let d' = record d { pipeline = set d.pipeline i (registered p hal) } in
      (register_usb_hal d i hal ≡ some (success, d', enable_call p))
      × (register_usb_hal d' i other ≡ some (e_busy, d', none))
unfolding register_usb_hal
register_twice d i hal other p lt at_ free =
    let small : leb max_pipeline_cnt i ≡ false = ground arith in
    let bound = get_elem?-bound d.pipeline i at_ in
    (
      simp (small, at_, free),
      simp (small, get_elem?-set_self d.pipeline i (registered p hal) bound),
    )

device_index_lem :
    (ds : List (Option DrmDevice)) (i id : ℕ) {j : ℕ}
    → drm_device_index_from i id ds ≡ some j
    → (k : ℕ) × ((j ≡ i + k) × ((d : DrmDevice) × ((get_elem? ds k ≡ some (some d)) × (d.id ≡ id))))
unfolding drm_device_index_from
device_index_lem [] i id e = cc
device_index_lem (none ∷ ds) i id e =
    let (k, (f, g)) = device_index_lem ds (i + 1) id e in (suc k, (omega arith, g))
device_index_lem (some d ∷ ds) i id {j = j} e = elim (Bool-cases (d.id == id)) [
  | inl same ↦
      let eq : some i ≡ some j = rw same at e in
      let at_ : i ≡ j = cc in (0, (omega arith, (d, (refl, (==_iff _ _).0 same))))
  | inr differ ↦
      let (k, (f, g)) = device_index_lem ds (i + 1) id (rw differ at e) in (suc k, (omega arith, g))
]

no_id : {g : ℕ} → ◌≡◌ {A = Option ℕ} none (some g) → ⊥
no_id e = cc

global_id_lem :
    (ds : List (Option DrmDevice)) (id i g : ℕ)
    → get_pipeline_global_id ds id i ≡ some g
    → (i < 3)
      × ((k : ℕ) × ((g ≡ k * 3 + i)
            × ((d : DrmDevice) × ((get_elem? ds k ≡ some (some d)) × (d.id ≡ id)))))
unfolding get_pipeline_global_id get_drm_device_index
global_id_lem ds id i g e = elim (Bool-cases (leb max_pipeline_cnt i)) [
  | inl over ↦ absurd (no_id (simp over at e))
  | inr fits ↦ elim (Option-cases (drm_device_index_from 0 id ds)) [
    | inl none' ↦ absurd (no_id (simp (fits, none') at e))
    | inr (j, found) ↦
        let (k, (f, at_)) = device_index_lem ds 0 id found in
        let eq : some (j * 3 + i) ≡ some g = simp (fits, found) at e in
        (ground arith, (k, (let same : j * 3 + i ≡ g = cc in omega arith, at_)))
  ]
]

-- Two pipelines that have the same global id are the same pipeline of the same device.
pub global_id_injective :
    (ds : List (Option DrmDevice)) (a b i j g : ℕ)
    → get_pipeline_global_id ds a i ≡ some g
    → get_pipeline_global_id ds b j ≡ some g
    → (a ≡ b) × (i ≡ j)
global_id_injective ds a b i j g ea eb =
    let (hi, (k, (f, (d, (at_, same))))) = global_id_lem ds a i g ea in
    let (hj, (l, (f', (d', (at_', same'))))) = global_id_lem ds b j g eb in
    let kl : k ≡ l = omega arith in
    let dd : some (some d) ≡ some (some d') = sym at_ ∙ ap (get_elem? ds) kl ∙ at_' in
    let d_eq : d ≡ d' = cc in (sym same ∙ ap (λ (x : DrmDevice). x.id) d_eq ∙ same', omega arith)
