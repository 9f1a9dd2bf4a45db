-- ===== src/Drm/Pipelines.antt =====
-- src/drm/msdisp_drm_interface.c: the pipelines of the DRM devices, and which adapter has which.
pub mod Laws
use ms912x.Base.{
  ℕ, zero, suc, ◌+◌, ◌-◌, ◌*◌, ◌/◌, ◌%◌, ◌^◌, ◌≤◌, ◌<◌, min, max, bit_and, bit_or, ◌≡◌, refl, sym,
  ap, ◌∙◌, subst, ◌≢◌, ◌↔◌, ◌⊎◌, inl, inr, Bool, true, false, not, ◌&&◌, ◌||◌, Option, none, some,
  List, [], ◌∷◌, ◌++◌, map, arith, ltb, leb, ◌==◌, if◌then◌else◌, ltb→lt, lt→ltb, leb→le, ==_iff,
  Bool-cases, Option-cases, length, get_elem?, get_or, set, take, drop, replicate, length-append,
  length-set, get_elem?-set_self, get_elem?-set_ne, get_elem?-lt, get_elem?_past, length-take,
  length-drop, length-replicate, All, All-append,
}
use ms912x.Base.Int.{ℤ, negsuc}
use ms912x.Usb.{success, e_inval}
use ms912x.Hal.Request.{e_busy}

-- `struct drm_pending_vblank_event`; `id` stands for its address.
pub record VblankEvent : Type 0 where
  pub id : ℕ
  pub pipe : ℕ

-- `struct msdisp_drm_frame_stat`. The counters that nothing counts are left out.
pub record DrmFrameStat : Type 0 where
  pub total : ℕ
  pub no_usb_hal : ℕ
  pub no_old_state : ℕ
  pub no_fb : ℕ
  pub vmap_null : ℕ
  pub handle_fail : ℕ
  pub full_needs_refresh : ℕ
  pub full_no_old_state : ℕ
  pub full_no_old_fb : ℕ
  pub full_no_damage : ℕ

-- `enum drm_connector_status`.
pub data ConnectorStatus : Type 0 where
  connected disconnected unknown : ConnectorStatus

-- `struct msdisp_drm_connector`: its status, and its copy of the EDID.
pub record Connector : Type 0 where
  pub status : ConnectorStatus
  pub edid : Option (List ℕ)

-- `struct drm_crtc`: its address and those of its planes.
pub record Crtc : Type 0 where
  pub id : ℕ
  pub primary : ℕ
  pub cursor : ℕ

-- `struct msdisp_drm_pipeline`. An adapter stands for its `struct msdisp_usb_hal`. The lock, the
-- FIFO, the encoder, the kernel's device and the file name of a dump are left out.
pub record Pipeline : Type 0 where
  pub crtc : Crtc
  pub connector : Connector
  pub usb_hal : Option ℕ
  pub event : Option VblankEvent
  pub frame_stat : DrmFrameStat
  pub dump_fb_flag : Bool
  pub reg_flag : Bool
  pub drm_status : Bool
  pub drm_width : ℕ
  pub drm_height : ℕ
  pub drm_rate : ℕ
  pub drm_fb_format : ℕ
  pub needs_full_refresh : Bool

-- `struct msdisp_drm_device`; `id` stands for its address.
pub record DrmDevice : Type 0 where
  pub id : ℕ
  pub pipeline : List Pipeline

abbrev pub max_pipeline_cnt : ℕ
max_pipeline_cnt = 3

unfoldable pub has_free : List Pipeline → Bool
has_free [] = false
has_free (p ∷ ps) = if not p.reg_flag then true else has_free ps

unfoldable pub has_free_pipeline : DrmDevice → Bool
unfolding has_free
has_free_pipeline d = has_free d.pipeline

-- The platform devices, a slot without a DRM device being `none`.
unfoldable pub get_free_device : List (Option DrmDevice) → Option DrmDevice
get_free_device [] = none
get_free_device (none ∷ ds) = get_free_device ds
get_free_device (some d ∷ ds) = if has_free_pipeline d then some d else get_free_device ds

-- The loop of `msdisp_drm_get_drm_device_index` from slot `i` on.
unfoldable pub drm_device_index_from : ℕ → ℕ → List (Option DrmDevice) → Option ℕ
drm_device_index_from i id [] = none
drm_device_index_from i id (none ∷ ds) = drm_device_index_from (i + 1) id ds
drm_device_index_from i id (some d ∷ ds) =
    if d.id == id then some i else drm_device_index_from (i + 1) id ds

unfoldable pub get_drm_device_index : List (Option DrmDevice) → ℕ → Option ℕ
get_drm_device_index ds id = drm_device_index_from 0 id ds

free_from : ℕ → List Pipeline → Option ℕ
free_from i [] = none
free_from i (p ∷ ps) = if not p.reg_flag then some i else free_from (i + 1) ps

pub get_free_pipeline_index : DrmDevice → Option ℕ
get_free_pipeline_index d = free_from 0 d.pipeline

-- `none` is the code -1.
unfoldable pub get_pipeline_global_id : List (Option DrmDevice) → ℕ → ℕ → Option ℕ
get_pipeline_global_id ds id pipeline_index =
    if leb max_pipeline_cnt pipeline_index then none else elim (get_drm_device_index ds id) [
      | none ↦ none
      | some drm_index ↦ some (drm_index * max_pipeline_cnt + pipeline_index)
    ]

-- The pipeline after an adapter is registered.
abbrev pub registered : Pipeline → ℕ → Pipeline
registered p hal = record p { usb_hal = some hal; reg_flag = true }

-- The mode that the adapter's `enable` is called with, for a pipeline that DRM has enabled.
abbrev pub enable_call : Pipeline → Option (ℕ × ℕ × ℕ × ℕ)
enable_call p =
    if p.drm_status then some (p.drm_width, p.drm_height, p.drm_rate, p.drm_fb_format) else none

-- `msdisp_drm_register_usb_hal`: the code, the device, and the call of `enable` if one is made. The code of that call
-- is dropped. `none` is a pipeline that is not there.
unfoldable pub register_usb_hal :
    DrmDevice → ℕ → ℕ → Option (ℤ × DrmDevice × Option (ℕ × ℕ × ℕ × ℕ))
register_usb_hal d pipeline_index hal =
    if leb max_pipeline_cnt pipeline_index
    then some (e_inval, d, none)
    else elim (get_elem? d.pipeline pipeline_index) [
      | none ↦ none
      | some p ↦
          if p.reg_flag
          then some (e_busy, d, none)
          else some (
            success,
            record d { pipeline = set d.pipeline pipeline_index (registered p hal) },
            enable_call p,
          )
    ]

unfoldable pub unregister_usb_hal : DrmDevice → ℕ → Option (ℤ × DrmDevice)
unregister_usb_hal d pipeline_index =
    if leb max_pipeline_cnt pipeline_index
    then some (e_inval, d)
    else elim (get_elem? d.pipeline pipeline_index) [
      | none ↦ none
      | some p ↦ some (
        success,
        record d {
          pipeline = set d.pipeline pipeline_index (record p { usb_hal = none; reg_flag = false });
        },
      )
    ]
