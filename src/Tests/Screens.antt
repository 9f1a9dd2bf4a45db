-- ===== src/Tests/Screens.antt =====
-- Runs of the models of src/drm: CRTCs, planes, connectors and modes.
use mathlib.Core.List.{Perm}
use ms912x.Base.{
  ℕ, ◌+◌, ◌≡◌, refl, ◌≢◌, true, false, Option, none, some, List, [], ◌∷◌, arith, replicate,
}
use ms912x.Base.Int.{pos}
use ms912x.Usb.{success}
use ms912x.Hal.Dev.{Dev}
use ms912x.Hal.Mode.{fourcc_code, find_vic}
use ms912x.Hal.Request.Busy.{IsBusy}
use ms912x.Device.Command.{port_cvbs_svideo}
use ms912x.Drm.Cea.Types.{
  DisplayMode, drm_mode, phsync, nhsync, pvsync, nvsync, aspect_16_9, aspect_4_3,
}
use ms912x.Drm.Mode.{cea_mode_for_vic}
use ms912x.Drm.Mode.Laws.{Represents, label_of, cea_mode_for_vic_lem}
use ms912x.Drm.Pipelines.{
  Pipeline, DrmDevice, VblankEvent, connected, unregister_usb_hal, register_usb_hal, registered,
}
use ms912x.Drm.Funcs.{HalFuncs, mode_ok, mode_bad}
use ms912x.Drm.Glue.Adapters.{Adapters, ms9132_hal_funcs}
use ms912x.Drm.Crtc.{CrtcState, Framebuffer, get_pipeline_by_crtc, atomic_flush, timer_func}
use ms912x.Drm.Crtc.Events.{timer_func-atomic_flush}
use ms912x.Drm.Crtc.Enable.{RunsIn, register-unregister}
use ms912x.Drm.Plane.{PlaneState, full, update_pipeline}
use ms912x.Drm.Plane.Refresh.{SentWhole, refresh_ends}
use ms912x.Drm.Plane.Dropped.{Dropped, IsShown, update_pipeline-IsBusy}
use ms912x.Drm.Connectors.{BlockReader, detect, connector_mode_valid, add_modes_by_cea_vic}
use ms912x.Drm.Connectors.Laws.{HasEdid, detect-HasEdid}
use ms912x.Drm.Connectors.Cvbs.{AreAnalog, analog_modes_lem}
use ms912x.Tests.Fixtures.{quiet, listed, tuned, running}
use ms912x.Tests.Adapters.{free, accepted}

cea_mode_for_vic_lem_example : Represents (label_of 16) (cea_mode_for_vic 16)
cea_mode_for_vic_lem_example = cea_mode_for_vic_lem 16

-- Functions that accept everything, and count the pictures.
abbrev accepting : HalFuncs ℕ
accepting = record {
  get_hpd_status = λ hal s. ((success, 1), s);
  get_edid = λ hal block buf len s. ((some success, buf), s);
  mode_valid = λ hal width height rate s. mode_ok;
  enable = λ hal width height rate fourcc s. (success, s);
  disable = λ hal s. (success, s);
  send_xrgb8888_rect = λ hal buf width height pitch r s. some (success, s + 1);
  get_custom_cea_vic = λ hal size s. (success, []);
  cursor_set = λ hal buf s. some (success, s);
  cursor_move = λ hal x y s. (success, s);
}

abbrev hd : DisplayMode
hd =
    drm_mode "1920x1080" 148500 1920 2008 2052 2200 0 1080 1084 1089 1125 0 (phsync ∷ pvsync ∷ [])
      aspect_16_9

abbrev flip : VblankEvent
flip = record { id = 5; pipe = 0 }

abbrev pub crtc_state : CrtcState
crtc_state = record { enable = true; active = true; plane_mask = 1; event = some flip; mode = hd }

abbrev pub scanout : Framebuffer
scanout = record {
  width = 16;
  height = 4;
  pitch = 64;
  format = fourcc_code b'X' b'R' b'2' b'4';
  cpp = 4;
}

abbrev pub joined : Pipeline
joined = record (registered free 9) { needs_full_refresh = true }

abbrev pub screens : DrmDevice
screens = record { id = 40; pipeline = joined ∷ free ∷ [] }

pub first_found : get_pipeline_by_crtc screens 1 ≡ some 0
unfolding get_pipeline_by_crtc
first_found = refl

timer_func-atomic_flush_example :
    (d' : DrmDevice) × ((atomic_flush screens 1 4 true crtc_state
        ≡ some (d', record crtc_state { event = none }))
      × (Perm (timer_func d').1 (record flip { pipe = 4 } ∷ (timer_func screens).1)
          × ((timer_func (timer_func d').0).1 ≡ [])))
timer_func-atomic_flush_example =
    timer_func-atomic_flush screens 1 4 0 crtc_state joined flip first_found refl refl refl refl

joined-RunsIn : RunsIn hd 60 7 joined
joined-RunsIn = record { status = refl; width = refl; height = refl; rate_ = refl; format_ = refl }

register-unregister_example :
    (d' : DrmDevice) × ((d'' : DrmDevice) × ((unregister_usb_hal screens 0 ≡ some (success, d'))
        × (register_usb_hal d' 0 3 ≡ some (success, d'', some (1920, 1080, 60, 7)))))
register-unregister_example =
    register-unregister screens 0 3 60 7 hd joined (omega arith) refl joined-RunsIn

abbrev pub plugged : Dev → Adapters
plugged d = record { dev = λ n. d; history = []; work = [] }

pub hd_accepted :
    connector_mode_valid
      (ms9132_hal_funcs quiet listed (λ n. true) 2)
      (λ m. 60)
      joined
      hd
      (plugged tuned)
    ≡ mode_ok
unfolding connector_mode_valid
hd_accepted = accepted

abbrev shown : PlaneState
shown = record {
  fb = some scanout;
  shadow = some (replicate 256 7);
  crtc_x = pos 0;
  crtc_y = pos 0;
}

abbrev after_shown : Pipeline
after_shown = record joined {
  needs_full_refresh = false;
  frame_stat = record joined.frame_stat { total = 1; no_old_state = 1; full_needs_refresh = 1 };
}

whole_sent : update_pipeline accepting (λ o. none) joined none shown 0 ≡ some (after_shown, 1, none)
unfolding update_pipeline
whole_sent = refl

refresh_ends_example :
    SentWhole accepting joined 0 1 none shown.fb shown.shadow (some 9) (full (some scanout))
refresh_ends_example =
    refresh_ends accepting after_shown 0 1 none (λ o. none) joined none shown whole_sent refl refl

abbrev in_use : Dev
in_use = record running {
  request0 = record running.request0 { done = false };
  request1 = record running.request1 { done = false };
}

in_use-IsBusy : IsBusy in_use 16 4
in_use-IsBusy = record {
  enabled = refl;
  width_ = refl;
  height_ = refl;
  shown = refl;
  request0 = refl;
  request1 = refl;
}

scanout-IsShown : IsShown scanout
scanout-IsShown = record { width = omega arith; height = omega arith; pitch = omega arith }

update_pipeline-IsBusy_example : Dropped (plugged in_use) (
    update_pipeline
      (ms9132_hal_funcs quiet listed (λ n. true) 2)
      (λ o. none)
      joined
      none
      shown
      (plugged in_use))
update_pipeline-IsBusy_example =
    update_pipeline-IsBusy quiet listed (λ n. true) 2 (plugged in_use) 9 scanout (replicate 256 7)
      in_use-IsBusy scanout-IsShown (λ o. none) joined none shown refl refl refl refl

abbrev read_block : BlockReader ℕ → ℕ → Option (List ℕ) × ℕ
read_block reader s = let ((code, buf), s') = reader 0 (replicate 128 0) 128 s in (some buf, s')

free-HasEdid : HasEdid joined.connector
free-HasEdid e = cc

detect-HasEdid_example :
    (HasEdid (detect accepting read_block joined 0).1
      × ((detect accepting read_block joined 0).0 ≡ connected
          → ((detect accepting read_block joined 0).1.status ≡ connected)
            × ((edid : List ℕ) × ((detect accepting read_block joined 0).1.edid ≡ some edid))
            × ((hal : ℕ) × ((some 9 ≡ some hal)
                  × (((accepting.get_hpd_status hal 0).0.0 ≡ success)
                      × ((accepting.get_hpd_status hal 0).0.1 ≢ 0))))))
detect-HasEdid_example = detect-HasEdid accepting read_block joined 0 free-HasEdid

abbrev analog : Dev
analog = record running { port_type = port_cvbs_svideo }

abbrev pal : DisplayMode
pal = drm_mode "720x576" 27000 720 732 796 864 0 576 581 586 625 0 (nhsync ∷ nvsync ∷ []) aspect_4_3

pal_is_17 : cea_mode_for_vic 17 ≡ some pal
unfolding cea_mode_for_vic
pal_is_17 = refl

no_custom_pal : find_vic 720 576 50 [] ≡ none
unfolding find_vic
no_custom_pal = refl

analog_modes_lem_example :
    AreAnalog (
      add_modes_by_cea_vic
        (ms9132_hal_funcs quiet listed (λ n. true) 2)
        (λ vic. true)
        joined
        (plugged analog))
    × (connector_mode_valid
          (ms9132_hal_funcs quiet listed (λ n. true) 2)
          (λ m. 50)
          joined
          pal
          (plugged analog)
        ≡ mode_bad)
analog_modes_lem_example =
    analog_modes_lem quiet listed (λ n. true) 2 (plugged analog) 9 joined (λ m. 50) pal refl refl
      no_custom_pal pal_is_17
