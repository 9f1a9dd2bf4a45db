-- ===== src/Tests/Adapters.antt =====
-- Runs of src/drm/ms9132_hal.c and msdisp_drm_interface.c.
use ms912x.Base.{◌≡◌, refl, inl, true, false, Option, none, some, List, [], ◌∷◌}
use ms912x.Hal.Mode.{fourcc_code, is_support_fourcc, find_desc, find_desc_in, support_arr}
use ms912x.Drm.Glue.{mode_valid, mode_valid-Supported}
use ms912x.Drm.Pipelines.{
  Pipeline, DrmDevice, ConnectorStatus, has_free, has_free_pipeline, get_drm_device_index,
  drm_device_index_from, get_free_device, get_pipeline_global_id, registered,
}
use ms912x.Drm.Funcs.{mode_ok}
use ms912x.Tests.Fixtures.{tuned}

abbrev pub free : Pipeline
free = record {
  crtc = record { id = 1; primary = 2; cursor = 3 };
  connector = record { status = ConnectorStatus.unknown; edid = none };
  event = none;
  frame_stat = record {
    total = 0;
    no_usb_hal = 0;
    no_old_state = 0;
    no_fb = 0;
    vmap_null = 0;
    handle_fail = 0;
    full_needs_refresh = 0;
    full_no_old_state = 0;
    full_no_old_fb = 0;
    full_no_damage = 0;
  };
  dump_fb_flag = false;
  needs_full_refresh = false;
  usb_hal = none;
  reg_flag = false;
  drm_status = true;
  drm_width = 1920;
  drm_height = 1080;
  drm_rate = 60;
  drm_fb_format = 7;
}

-- The first pipeline has an adapter.
abbrev pub half_used : DrmDevice
half_used = record { id = 40; pipeline = registered free 1 ∷ free ∷ free ∷ [] }

abbrev pub all_used : DrmDevice
all_used = record { id = 30; pipeline = registered free 2 ∷ [] }

abbrev pub devices : List (Option DrmDevice)
devices = some all_used ∷ none ∷ some half_used ∷ []

pub found : get_free_device devices ≡ some half_used
unfolding get_free_device has_free_pipeline has_free
found = refl

id_of_7 : get_pipeline_global_id devices 40 1 ≡ some 7
unfolding get_pipeline_global_id get_drm_device_index drm_device_index_from
id_of_7 = refl

pub known : is_support_fourcc (fourcc_code b'X' b'R' b'2' b'4') ≡ true
unfolding is_support_fourcc find_desc find_desc_in support_arr
known = refl

pub accepted : mode_valid tuned 1920 1080 60 ≡ mode_ok
accepted = mode_valid-Supported tuned 1920 1080 60 (inl (inl (refl, refl, refl)))
