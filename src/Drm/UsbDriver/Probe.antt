-- ===== src/Drm/UsbDriver/Probe.antt =====
-- src/drm/msdisp_usb_drv.c: a probe gives the adapter a pipeline, or leaves everything as it was.
use ms912x.Base.{
  ℕ, ◌≤◌, ◌<◌, ◌≡◌, refl, sym, subst, ◌⊎◌, inl, inr, true, false, not, ◌||◌, Option, none, some,
  List, [], arith, leb, Bool-cases, length, get_elem?, set, get_elem?-bound,
}
use ms912x.Base.Int.{ℤ, nonzero}
use ms912x.Usb.{Kernel, History, success, e_nomem}
use ms912x.Hal.Dev.{Dev}
use ms912x.Hal.Fifo.{Fifo}
use ms912x.Hal.Attach.{UsbId, find_dev, Alloc, Attached, e_noent, hal_init, hal_destroy}
use ms912x.Hal.Attach.Balance.{Balanced, hal_init-Balanced}
use ms912x.Drm.CustomMode.{CustomMode}
use ms912x.Drm.Pipelines.{
  Pipeline, DrmDevice, max_pipeline_cnt, get_free_device, get_free_pipeline_index, registered,
  enable_call, register_usb_hal,
}
use ms912x.Drm.Pipelines.Laws.{probe_registers}
use ms912x.Drm.UsbDriver.{
  Unset, ProbeAlloc, Probed, e_nodev, refused, replaced, usb_add_custom_mode, enabled_by,
  after_register, after_init, in_pipeline, on_device, parsed_once, probe,
}

-- The probe failed: there is no adapter, nothing is held and no pipeline has changed.
pub record Refused (drms : List (Option DrmDevice)) (r : Probed) : Type 0 where
  pub code : nonzero r.code ≡ true
  pub adapter : r.adapter ≡ none
  pub held : r.held ≡ []
  pub same : r.drms ≡ drms

-- The adapter has the first free pipeline of the first device with one, and what it holds can be
-- given back.
pub record Joined (a : Alloc) (drms : List (Option DrmDevice)) (hal : ℕ) (r : Probed) : Type 0 where
  pub code : r.code ≡ success
  pub adapter : (d : Dev) × (r.adapter ≡ some d)
  pub held : hal_destroy a r.held ≡ some []
  pub joins :
      (drm : DrmDevice) × ((i : ℕ) × ((p : Pipeline) × ((get_free_device drms ≡ some drm)
            × (get_free_pipeline_index drm ≡ some i)
            × (get_elem? drm.pipeline i ≡ some p)
            × (p.reg_flag ≡ false)
            × (r.drms
                ≡ replaced
                    (record drm { pipeline = set drm.pipeline i (registered p hal) })
                    drms))))

abbrev pub Decided : Alloc → List (Option DrmDevice) → ℕ → Option Probed → Type 0
Decided a drms hal none = ⊥
Decided a drms hal (some r) = Refused drms r ⊎ Joined a drms hal r

refused_lem :
    (a : Alloc) (drms : List (Option DrmDevice)) (hal : ℕ) (code : ℤ)
    → nonzero code ≡ true
    → Decided a drms hal (some (refused code drms))
refused_lem a drms hal code bad =
    inl (record { code = bad; adapter = refl; held = refl; same = refl })

module _ (k : Kernel) (f : Fifo) (u : Unset) (a : Alloc) (modes : List CustomMode)
    (drms : List (Option DrmDevice)) (hal : ℕ) where
  module _ (drm : DrmDevice) (i : ℕ) (p : Pipeline) (free_device : get_free_device drms ≡ some drm)
      (found : get_free_pipeline_index drm ≡ some i) (at_ : get_elem? drm.pipeline i ≡ some p)
      (free : p.reg_flag ≡ false)
      (registers : register_usb_hal drm i hal
        ≡ some (
          success,
          record drm { pipeline = set drm.pipeline i (registered p hal) },
          enable_call p,
        )) where
    after_init_lem :
        (o : Attached) (h : History)
        → Balanced a o
        → Decided a drms hal (after_init k f u a modes drms drm i hal o h).0
    after_init_lem none h b = absurd b
    after_init_lem (some (none, held)) h b =
        inl (record { code = refl; adapter = refl; held = b; same = refl })
    after_init_lem (some (some d, held)) h b =
        let d' = (usb_add_custom_mode k u modes d h).0 in
        subst (λ r. Decided a drms hal (after_register f a drms d' held r)) (sym registers)
          (inr (record {
            code = refl;
            adapter = (enabled_by f d' (enable_call p), refl);
            held = b;
            joins = (drm, (i, (p, (free_device, found, at_, free, refl))));
          }))

    in_pipeline_lem :
        (id : UsbId) (zeroed : Dev) (h : History)
        → i < 3
        → Decided a drms hal (in_pipeline k f u a id modes zeroed drms drm hal (some i) h).0
    in_pipeline_lem id zeroed h lt =
        let small : leb max_pipeline_cnt i ≡ false = ground arith in
        rw small (
          after_init_lem (hal_init k a id zeroed h).0 (hal_init k a id zeroed h).1
            (hal_init-Balanced k a id zeroed h))

  on_device_lem :
      (id : UsbId) (zeroed : Dev) (h : History) (o : Option DrmDevice)
      → get_free_device drms ≡ o
      → ((drm : DrmDevice) → get_free_device drms ≡ some drm → length drm.pipeline ≤ 3)
      → Decided a drms hal (on_device k f u a id modes zeroed drms hal o h).0
  on_device_lem id zeroed h none e bound = refused_lem a drms hal e_nodev refl
  on_device_lem id zeroed h (some drm) e bound =
      let (i, (p, (found, (at_, (free, registers))))) =
        probe_registers drms drm hal (bound drm e) e in
      let lt : i < 3 = omega (arith, get_elem?-bound drm.pipeline i at_, bound drm e) in
      rw found (in_pipeline_lem drm i p e found at_ free registers id zeroed h lt)

-- A probe whose parameter is parsed, for DRM devices with three pipelines at most: it either fails
-- with a code, no adapter, nothing held and the pipelines as they were, whichever step failed, or it
-- returns 0 and the adapter has the first free pipeline, with nothing else changed.
pub probe-Decided :
    (k : Kernel) (f : Fifo) (u : Unset) (a : ProbeAlloc) (id : UsbId) (text : Option (List ℕ))
    (parsed : Option (List CustomMode)) (zeroed : Dev) (drms : List (Option DrmDevice)) (hal : ℕ)
    (h : History) (modes : List CustomMode)
    → parsed_once a.text text parsed ≡ some modes
    → ((drm : DrmDevice) → get_free_device drms ≡ some drm → length drm.pipeline ≤ 3)
    → Decided a.adapter drms hal (probe k f u a id text parsed zeroed drms hal h).0
unfolding probe
probe-Decided k f u a id text parsed zeroed drms hal h modes e bound =
    rw e (elim (Bool-cases (not a.usb_dev || not a.usb_hal)) [
      | inl lacks ↦ rw lacks (refused_lem a.adapter drms hal e_nomem refl)
      | inr memory ↦ elim (Bool-cases (find_dev id)) [
        | inr unknown ↦ rw (memory, unknown) (refused_lem a.adapter drms hal e_noent refl)
        | inl known ↦
            rw (memory, known)
              (on_device_lem k f u a.adapter modes drms hal id zeroed h (get_free_device drms) refl
                bound)
      ]
    ])
