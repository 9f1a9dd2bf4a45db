-- ===== src/Drm/Plane.antt =====
-- src/drm/msdisp_drm_modeset.c: the updates of the primary plane and of the cursor plane.
pub mod Refresh
pub mod Shown
pub mod Dropped
use ms912x.Base.{
  ℕ, zero, suc, ◌+◌, ◌-◌, ◌*◌, ◌/◌, ◌%◌, ◌^◌, ◌≤◌, ◌<◌, min, max, bit_and, bit_or, ◌≡◌, refl, sym,
  ap, ◌∙◌, subst, ◌≢◌, ◌↔◌, ◌⊎◌, inl, inr, Bool, true, false, not, ◌&&◌, ◌||◌, Option, none, some,
  List, [], ◌∷◌, ◌++◌, map, arith, ltb, leb, ◌==◌, if◌then◌else◌, ltb→lt, lt→ltb, leb→le, ==_iff,
  Bool-cases, Option-cases, length, get_elem?, get_or, set, take, drop, replicate, length-append,
  length-set, get_elem?-set_self, get_elem?-set_ne, get_elem?-lt, get_elem?-bound, get_elem?_past,
  length-take, length-drop, length-replicate, All, All-append,
}
use mathlib.Core.Option
use ms912x.Base.Int.{ℤ, pos, nonzero}
use ms912x.Hal.Dev.{inc}
use ms912x.Drm.Pipelines.{Pipeline, DrmDevice, DrmFrameStat}
use ms912x.Drm.Funcs.{HalFuncs, Rect}
use ms912x.Drm.Crtc.{Framebuffer}

-- `struct drm_plane_state` with its shadow: the framebuffer, the bytes that are mapped if any are,
-- and the position on the screen.
pub record PlaneState : Type 0 where
  pub fb : Option Framebuffer
  pub shadow : Option (List ℕ)
  pub crtc_x : ℤ
  pub crtc_y : ℤ

-- The loop of `get_pipeline_by_plane` from pipeline `i` on.
by_plane_from : ℕ → ℕ → List Pipeline → Option ℕ
by_plane_from i plane [] = none
by_plane_from i plane (p ∷ ps) =
    if p.crtc.primary == plane || p.crtc.cursor == plane
    then some i
    else by_plane_from (i + 1) plane ps

unfoldable pub get_pipeline_by_plane : DrmDevice → ℕ → Option ℕ
unfolding by_plane_from
get_pipeline_by_plane d plane = by_plane_from 0 plane d.pipeline

-- The whole framebuffer.
abbrev pub full : Option Framebuffer → Rect
full none = record { x1 = pos 0; y1 = pos 0; x2 = 0; y2 = 0 }
full (some fb) = record { x1 = pos 0; y1 = pos 0; x2 = fb.width; y2 = fb.height }

-- Why the whole framebuffer is sent, or which part of it is.
pub data Damage : Type 0 where
  needs_refresh no_old_state no_old_fb no_damage : Damage
  merged : Rect → Damage

-- With both states and an old framebuffer, what `drm_atomic_helper_damage_merged` gives decides.
abbrev pub merged_damage : Option Rect → Damage
merged_damage none = no_damage
merged_damage (some r) = merged r

abbrev pub damage_of_old : (PlaneState → Option Rect) → Option PlaneState → Damage
damage_of_old damage_merged none = no_old_state
damage_of_old damage_merged (some old) = elim old.fb [
  | none ↦ no_old_fb
  | some fb ↦ merged_damage (damage_merged old)
]

abbrev pub damage_of : Bool → (PlaneState → Option Rect) → Option PlaneState → Damage
damage_of true damage_merged old = needs_refresh
damage_of false damage_merged old = damage_of_old damage_merged old

abbrev pub rect_of : Option Framebuffer → Damage → Rect
rect_of fb (merged r) = r
rect_of fb needs_refresh = full fb
rect_of fb no_old_state = full fb
rect_of fb no_old_fb = full fb
rect_of fb no_damage = full fb

abbrev pub counted : Damage → DrmFrameStat → DrmFrameStat
counted needs_refresh t = record t {
  total = inc t.total;
  no_old_state = inc t.no_old_state;
  full_needs_refresh = inc t.full_needs_refresh;
}
counted no_old_state t = record t {
  total = inc t.total;
  no_old_state = inc t.no_old_state;
  full_no_old_state = inc t.full_no_old_state;
}
counted no_old_fb t = record t {
  total = inc t.total;
  no_old_state = inc t.no_old_state;
  full_no_old_fb = inc t.full_no_old_fb;
}
counted no_damage t = record t { total = inc t.total; full_no_damage = inc t.full_no_damage }
counted (merged r) t = record t { total = inc t.total }

abbrev pub count_damage : Damage → Pipeline → Pipeline
count_damage m p = record p { frame_stat = counted m p.frame_stat }

abbrev pub count_no_fb : Pipeline → Pipeline
count_no_fb p = record p { frame_stat = record p.frame_stat { no_fb = inc p.frame_stat.no_fb } }

abbrev pub count_vmap_null : Pipeline → Pipeline
count_vmap_null p = record p {
  frame_stat = record p.frame_stat { vmap_null = inc p.frame_stat.vmap_null };
}

abbrev pub count_no_usb_hal : Pipeline → Pipeline
count_no_usb_hal p = record p {
  frame_stat = record p.frame_stat { no_usb_hal = inc p.frame_stat.no_usb_hal };
}

abbrev pub count_handle_fail : Pipeline → Pipeline
count_handle_fail p = record p {
  frame_stat = record p.frame_stat { handle_fail = inc p.frame_stat.handle_fail };
}

-- A dump to a file: the pixels, and the framebuffer that gives their size.
abbrev pub Dump : Type 0
Dump = List ℕ × Framebuffer

abbrev pub dump : Bool → List ℕ → Framebuffer → Option Dump
dump true src fb = some (src, fb)
dump false src fb = none

-- A transfer's code: a failure is counted, and a success ends the refresh.
abbrev pub after_damage : ℤ → Pipeline → Pipeline
after_damage rtn p =
    if nonzero rtn then count_handle_fail p else record p { needs_full_refresh = false }

-- What an update leaves: the pipeline, the adapters, and the dump that it made.
abbrev pub Update : Type 0 → Type 0
Update S = Pipeline × S × Option Dump

module _ {S : Type 0} (funcs : HalFuncs S) where
  -- `msdisp_drm_handle_damage`.
  abbrev pub handle_damage : ℕ → Framebuffer → Rect → List ℕ → S → Option (ℤ × S)
  handle_damage hal fb r src s = funcs.send_xrgb8888_rect hal src fb.width fb.height fb.pitch r s

  abbrev pub finish : Pipeline → Option Dump → Option (ℤ × S) → Option (Update S)
  finish p out none = none
  finish p out (some (rtn, s)) = some (after_damage rtn p, s, out)

  abbrev pub send_to :
      Pipeline → Framebuffer → Rect → List ℕ → S → Option Dump → Option ℕ → Option (Update S)
  send_to p fb r src s out none = some (count_no_usb_hal p, s, out)
  send_to p fb r src s out (some hal) = finish p out (handle_damage hal fb r src s)

  abbrev pub from_shadow : Pipeline → Framebuffer → Rect → S → Option (List ℕ) → Option (Update S)
  from_shadow p fb r s none = some (count_vmap_null p, s, none)
  from_shadow p fb r s (some src) =
      send_to (record p { dump_fb_flag = false }) fb r src s (dump p.dump_fb_flag src fb) p.usb_hal

  abbrev pub from_fb : Pipeline → PlaneState → Rect → S → Option Framebuffer → Option (Update S)
  from_fb p state r s none = some (count_no_fb p, s, none)
  from_fb p state r s (some fb) = from_shadow p fb r s state.shadow

  -- For a pipeline that was found.
  unfoldable pub update_pipeline :
      (PlaneState → Option Rect) → Pipeline → Option PlaneState → PlaneState → S → Option (Update S)
  update_pipeline damage_merged p old state s =
      let m = damage_of p.needs_full_refresh damage_merged old in
      from_fb (count_damage m p) state (rect_of state.fb m) s state.fb

  abbrev stored : DrmDevice → ℕ → Option (Update S) → Option (DrmDevice × S × Option Dump)
  stored d i none = none
  stored d i (some (p, s, out)) = some (record d { pipeline = set d.pipeline i p }, s, out)

  -- `msdisp_drm_plane_atomic_update` of the primary plane, with its old and its new state, either of
  -- which may be missing. `damage_merged` is `drm_atomic_helper_damage_merged` of an old state and
  -- the new one.
  pub plane_atomic_update :
      (PlaneState → PlaneState → Option Rect)
      → DrmDevice
      → ℕ
      → Option PlaneState
      → Option PlaneState
      → S
      → Option (DrmDevice × S × Option Dump)
  plane_atomic_update damage_merged d plane old none s = some (d, s, none)
  plane_atomic_update damage_merged d plane old (some state) s =
      elim (get_pipeline_by_plane d plane) [
        | none ↦ none
        | some i ↦ elim (get_elem? d.pipeline i) [
          | none ↦ none
          | some p ↦ stored d i (update_pipeline (λ o. damage_merged o state) p old state s)
        ]
      ]

  abbrev set_cursor : ℕ → Option (List ℕ) → S → Option S
  set_cursor hal none s = some s
  set_cursor hal (some src) s = elim (funcs.cursor_set hal (some src) s) [
    | none ↦ none
    | some (rtn, s') ↦ some s'
  ]

  -- With an adapter. No framebuffer hides the cursor.
  cursor_to : ℕ → PlaneState → S → Option Framebuffer → Option S
  cursor_to hal state s none = Option.map (λ r. r.1) (funcs.cursor_set hal none s)
  cursor_to hal state s (some fb) =
      Option.map (λ s'. (funcs.cursor_move hal state.crtc_x state.crtc_y s').1)
        (set_cursor hal state.shadow s)

  -- `msdisp_drm_cursor_plane_atomic_update`.
  unfoldable pub cursor_plane_atomic_update : DrmDevice → ℕ → PlaneState → S → Option S
  unfolding cursor_to
  cursor_plane_atomic_update d plane state s = elim (get_pipeline_by_plane d plane) [
    | none ↦ some s
    | some i ↦ elim (get_elem? d.pipeline i) [
      | none ↦ none
      | some p ↦ elim p.usb_hal [ none ↦ some s | some hal ↦ cursor_to hal state s state.fb ]
    ]
  ]
