-- ===== src/Tests/Plugs.antt =====
-- Runs of the models of src/drm: platform the module parameter, and a probe.
use ms912x.Base.{
  ◌+◌, ◌≤◌, ◌<◌, ◌≡◌, refl, sym, ◌∙◌, subst, true, false, none, some, [], ◌∷◌, arith, length,
  replicate,
}
use ms912x.Usb.{success}
use ms912x.Hal.Attach.{UsbId, Alloc, RequestAlloc, hal_init}
use ms912x.Hal.Attach.Balance.{Balanced, hal_init-Balanced}
use ms912x.Drm.CustomMode.{CustomMode, parser_custom_mode}
use ms912x.Drm.CustomMode.Print.{print_modes}
use ms912x.Drm.CustomMode.Parse.{IsWritten}
use ms912x.Drm.CustomMode.RoundTrip.{parser_custom_mode-print_modes}
use ms912x.Drm.Pipelines.{DrmDevice, get_free_device}
use ms912x.Drm.Platform.{Register}
use ms912x.Drm.Platform.Module.{Loaded, msdisp_init, msdisp_init-Loaded}
use ms912x.Drm.UsbDriver.{Unset, ProbeAlloc, probe}
use ms912x.Drm.UsbDriver.Probe.{Decided, probe-Decided}
use ms912x.Hal.Timing.{timing_of}
use ms912x.Tests.Fixtures.{quiet, listed, running}
use ms912x.Tests.Adapters.{half_used, devices, found}

-- A kernel that grants every registration.
abbrev granting : Register
granting call id = some (call + 100)

msdisp_init-Loaded_example : Loaded success 2 (msdisp_init granting success 2)
msdisp_init-Loaded_example = msdisp_init-Loaded granting (λ call id. (call + 100, refl)) success 2

abbrev wide : CustomMode
wide = record { width = 2560; height = 1080; rate = 60; vic = 200 }

abbrev small : CustomMode
small = record { width = 1024; height = 600; rate = 75; vic = 8 }

wide-IsWritten : IsWritten wide
wide-IsWritten = record {
  width = omega arith;
  height = omega arith;
  rate = omega arith;
  vic = omega arith;
}

small-IsWritten : IsWritten small
small-IsWritten = record {
  width = omega arith;
  height = omega arith;
  rate = omega arith;
  vic = omega arith;
}

parser_custom_mode-print_modes_example :
    (length (wide ∷ (small ∷ [])) ≤ 16
      → parser_custom_mode true (some (print_modes wide (small ∷ []))) ≡ some (wide ∷ (small ∷ [])))
    × (16 < length (wide ∷ (small ∷ []))
        → parser_custom_mode true (some (print_modes wide (small ∷ []))) ≡ none)
parser_custom_mode-print_modes_example =
    parser_custom_mode-print_modes wide (small ∷ []) (wide-IsWritten, (small-IsWritten, tt))

abbrev request : RequestAlloc
request = record { transfer = true; pages = true; sg = success }

-- The list of pages of the second request cannot be had.
abbrev short_of_memory : Alloc
short_of_memory = record {
  hal = true;
  dev = true;
  dma = true;
  cursor = true;
  request0 = request;
  request1 = record request { pages = false };
}

abbrev ms9133 : UsbId
ms9133 = record { vendor = 0x345f; product = 0x9133 }

hal_init-Balanced_example :
    Balanced short_of_memory (hal_init quiet short_of_memory ms9133 running []).0
hal_init-Balanced_example = hal_init-Balanced quiet short_of_memory ms9133 running []

abbrev memory : ProbeAlloc
memory = record {
  text = true;
  usb_dev = true;
  usb_hal = true;
  adapter = record short_of_memory { request1 = request };
}

abbrev unset : Unset
unset = record { chip_id = 3; value = 255; stack = replicate 32 1; timing = timing_of [] }

devices_small : (drm : DrmDevice) → get_free_device devices ≡ some drm → length drm.pipeline ≤ 3
devices_small drm e =
    let both : some half_used ≡ some drm = sym found ∙ e in
    let same : half_used ≡ drm = cc in
    subst (λ (d : DrmDevice). length d.pipeline ≤ 3) same (omega arith)

probe-Decided_example :
    Decided memory.adapter devices 9
      (probe quiet listed unset memory ms9133 none (some (wide ∷ [])) running devices 9 []).0
probe-Decided_example =
    probe-Decided quiet listed unset memory ms9133 none (some (wide ∷ [])) running devices 9 []
      (wide ∷ []) refl devices_small
