-- ===== src/Drm/Crtc.antt =====
-- src/drm/msdisp_drm_modeset.c, msdisp_drm_drv.c: the handlers of a CRTC and the delivery of its events.
pub mod Events
pub mod Enable
pub mod Accepted
pub mod Transcript
use ms912x.Base.{
  ℕ, zero, suc, ◌+◌, ◌-◌, ◌*◌, ◌/◌, ◌%◌, ◌^◌, ◌≤◌, ◌<◌, min, max, bit_and, bit_or, ◌≡◌, refl, sym,
  ap, ◌∙◌, subst, ◌≢◌, ◌↔◌, ◌⊎◌, inl, inr, Bool, true, false, not, ◌&&◌, ◌||◌, Option, none, some,
  List, [], ◌∷◌, ◌++◌, map, arith, ltb, leb, ◌==◌, if◌then◌else◌, ltb→lt, lt→ltb, leb→le, ==_iff,
  Bool-cases, Option-cases, length, get_elem?, get_or, set, take, drop, replicate, length-append,
  length-set, get_elem?-set_self, get_elem?-set_ne, get_elem?-lt, get_elem?_past, length-take,
  length-drop, length-replicate, All, All-append,
}
use ms912x.Base.Int.{ℤ, pos, nonzero}
use ms912x.Usb.{success, e_inval}
use ms912x.Drm.Cea.Types.{DisplayMode}
use ms912x.Drm.Pipelines.{Pipeline, DrmDevice, VblankEvent}
use ms912x.Drm.Funcs.{HalFuncs}

-- `struct drm_crtc_state`.
pub record CrtcState : Type 0 where
  pub enable : Bool
  pub active : Bool
  pub plane_mask : ℕ
  pub event : Option VblankEvent
  pub mode : DisplayMode

-- `struct drm_framebuffer`.
pub record Framebuffer : Type 0 where
  pub width : ℕ
  pub height : ℕ
  pub pitch : ℕ
  pub format : ℕ
  pub cpp : ℕ

-- The loop of `get_pipeline_by_crtc` from pipeline `i` on; the index stands for the address.
unfoldable pub by_crtc_from : ℕ → ℕ → List Pipeline → Option ℕ
by_crtc_from i crtc [] = none
by_crtc_from i crtc (p ∷ ps) = if p.crtc.id == crtc then some i else by_crtc_from (i + 1) crtc ps

unfoldable pub get_pipeline_by_crtc : DrmDevice → ℕ → Option ℕ
unfolding by_crtc_from
get_pipeline_by_crtc d crtc = by_crtc_from 0 crtc d.pipeline

-- A write to the pipeline that was looked up; `none` is one through a null pointer.
abbrev pub put : DrmDevice → ℕ → (Pipeline → Pipeline) → Option Pipeline → Option DrmDevice
put d i f none = none
put d i f (some p) = some (record d { pipeline = set d.pipeline i (f p) })

abbrev pub updated : DrmDevice → Option ℕ → (Pipeline → Pipeline) → Option DrmDevice
updated d none f = none
updated d (some i) f = put d i f (get_elem? d.pipeline i)

abbrev pub given : VblankEvent → ℕ → Pipeline → Pipeline
given e index p = record p { event = some (record e { pipe = index }) }

abbrev pub emptied : CrtcState → Option DrmDevice → Option (DrmDevice × CrtcState)
emptied s none = none
emptied s (some d) = some (d, record s { event = none })

abbrev pub hand_over :
    DrmDevice → Option ℕ → ℕ → CrtcState → Option VblankEvent → Option (DrmDevice × CrtcState)
hand_over d i index s none = some (d, s)
hand_over d i index s (some e) = emptied s (updated d i (given e index))

-- `msdisp_crtc_update_event`; `index` is what `drm_crtc_index` gives.
pub update_event : DrmDevice → ℕ → ℕ → CrtcState → Option (DrmDevice × CrtcState)
update_event d crtc index s = hand_over d (get_pipeline_by_crtc d crtc) index s s.event

-- `was_active` is that of the old state.
pub atomic_flush : DrmDevice → ℕ → ℕ → Bool → CrtcState → Option (DrmDevice × CrtcState)
atomic_flush d crtc index was_active s =
    if s.active && was_active then update_event d crtc index s else some (d, s)

-- Once `drm_atomic_add_affected_planes` has returned `ret`; `index` is the primary plane's.
unfoldable pub atomic_check : ℤ → ℕ → CrtcState → ℤ
atomic_check ret index s =
    if nonzero ret
    then ret
    else (let has_primary = not (bit_and s.plane_mask (2 ^ index) == 0) in
        if has_primary
        then (if s.enable then success else e_inval)
        else (if s.enable then e_inval else success))

-- The mode that is kept for an adapter which is plugged in later.
abbrev pub enabled_in : DisplayMode → ℕ → ℕ → Pipeline → Pipeline
enabled_in mode rate format p = record p {
  drm_width = mode.hdisplay;
  drm_height = mode.vdisplay;
  drm_rate = rate;
  drm_fb_format = format;
  drm_status = true;
  needs_full_refresh = true;
}

module _ {S : Type 0} (funcs : HalFuncs S) where
  -- From the look-up of the pipeline and of its adapter on. The code of the call is dropped.
  abbrev pub call_enable :
      DrmDevice → ℕ → Pipeline → DisplayMode → ℕ → ℕ → S → Option ℕ → DrmDevice × S
  call_enable d i p mode rate format s none = (d, s)
  call_enable d i p mode rate format s (some hal) = (
    record d { pipeline = set d.pipeline i (enabled_in mode rate format p) },
    (funcs.enable hal mode.hdisplay mode.vdisplay rate format s).1,
  )

  abbrev pub enable_at :
      DrmDevice → ℕ → DisplayMode → ℕ → ℕ → S → Option Pipeline → Option (DrmDevice × S)
  enable_at d i mode rate format s none = none
  enable_at d i mode rate format s (some p) = some (call_enable d i p mode rate format s p.usb_hal)

  abbrev pub enable_pipeline :
      DrmDevice → Option ℕ → DisplayMode → ℕ → ℕ → S → Option (DrmDevice × S)
  enable_pipeline d none mode rate format s = none
  enable_pipeline d (some i) mode rate format s =
      enable_at d i mode rate format s (get_elem? d.pipeline i)

  abbrev with_crtc : CrtcState → Option (DrmDevice × S) → Option (DrmDevice × CrtcState × S)
  with_crtc c none = none
  with_crtc c (some (d, s)) = some (d, c, s)

  abbrev pub then_enable :
      (DisplayMode → ℕ)
      → ℕ
      → ℕ
      → S
      → Option (DrmDevice × CrtcState)
      → Option (DrmDevice × CrtcState × S)
  then_enable vrefresh crtc format s none = none
  then_enable vrefresh crtc format s (some (d, c)) =
      with_crtc c
        (enable_pipeline d (get_pipeline_by_crtc d crtc) c.mode (vrefresh c.mode) format s)

  -- `msdisp_drm_crtc_atomic_enable` on the primary plane's framebuffer. `vrefresh` is
  -- `drm_mode_vrefresh`.
  pub atomic_enable :
      (DisplayMode → ℕ)
      → DrmDevice
      → ℕ
      → ℕ
      → Option Framebuffer
      → CrtcState
      → S
      → Option (DrmDevice × CrtcState × S)
  atomic_enable vrefresh d crtc index none c s = none
  atomic_enable vrefresh d crtc index (some fb) c s =
      then_enable vrefresh crtc fb.format s (update_event d crtc index c)

  abbrev call_disable : Option ℕ → S → S
  call_disable none s = s
  call_disable (some hal) s = (funcs.disable hal s).1

  abbrev disable_at :
      DrmDevice
      → CrtcState
      → S
      → ℕ
      → Option Pipeline
      → Option (DrmDevice × CrtcState × S × Option VblankEvent)
  disable_at d c s i none = none
  disable_at d c s i (some p) = some (
    record d { pipeline = set d.pipeline i (record p { drm_status = false }) },
    record c { event = none },
    call_disable p.usb_hal s,
    c.event,
  )

  -- `msdisp_drm_crtc_atomic_disable`: an event that is pending in the state is sent at once.
  pub atomic_disable :
      DrmDevice → ℕ → CrtcState → S → Option (DrmDevice × CrtcState × S × Option VblankEvent)
  atomic_disable d crtc c s = elim (get_pipeline_by_crtc d crtc) [
    | none ↦ none
    | some i ↦ disable_at d c s i (get_elem? d.pipeline i)
  ]

-- `msdisp_drm_handle_page_flip`: the pipeline, and the event that is sent.
abbrev pub handle_page_flip : Pipeline → Pipeline × Option VblankEvent
handle_page_flip p = (record p { event = none }, p.event)

-- The loop of `msdisp_drm_timer_func`, with the events sent, in order.
pub timer_pipelines : List Pipeline → List Pipeline × List VblankEvent
timer_pipelines [] = ([], [])
timer_pipelines (p ∷ ps) =
    let (ps', sent) = timer_pipelines ps in
    ((handle_page_flip p).0 ∷ ps', elim (handle_page_flip p).1 [ none ↦ sent | some e ↦ e ∷ sent ])

pub timer_func : DrmDevice → DrmDevice × List VblankEvent
timer_func d =
    (record d { pipeline = (timer_pipelines d.pipeline).0 }, (timer_pipelines d.pipeline).1)
