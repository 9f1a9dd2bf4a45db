-- ===== src/Drm/UsbDriver.antt =====
-- src/drm/msdisp_usb_drv.c: what happens when an adapter is plugged in and pulled out. What the kernel's
-- allocations return, and what unset local variables hold, are parameters; the link in sysfs, whose
-- failure is logged only, is left out.
pub mod Probe
use ms912x.Base.{
  ℕ, zero, suc, ◌+◌, ◌-◌, ◌*◌, ◌/◌, ◌%◌, ◌^◌, ◌≤◌, ◌<◌, min, max, bit_and, bit_or, ◌≡◌, refl, sym,
  ap, ◌∙◌, subst, ◌≢◌, ◌↔◌, ◌⊎◌, inl, inr, Bool, true, false, not, ◌&&◌, ◌||◌, Option, none, some,
  List, [], ◌∷◌, ◌++◌, map, arith, ltb, leb, ◌==◌, if◌then◌else◌, ltb→lt, lt→ltb, leb→le, ==_iff,
  Bool-cases, Option-cases, length, get_elem?, get_or, set, take, drop, replicate, length-append,
  length-set, get_elem?-set_self, get_elem?-set_ne, get_elem?-lt, get_elem?-bound, get_elem?_past,
  length-take, length-drop, length-replicate, All, All-append,
}
use ms912x.Base.Int.{ℤ, pos, negsuc, nonzero}
use ms912x.Usb.{Kernel, M, ◌>>=◌, ◌>>◌, pure, success, e_nomem, e_inval}
use ms912x.Device.Edid.{MiscTiming}
use ms912x.Hal.Dev.{Dev}
use ms912x.Hal.Fifo.{Fifo}
use ms912x.Hal.Mode.{add_custom_mode}
use ms912x.Hal.Timing.{read_custom_timing}
use ms912x.Hal.Gpio.{init_gpio, resume_gpio}
use ms912x.Hal.Attach.{UsbId, find_dev, Alloc, Attached, e_noent, hal_init, hal_destroy}
use ms912x.Drm.Glue.{hal_enable}
use ms912x.Drm.CustomMode.{CustomMode, parser_custom_mode}
use ms912x.Drm.Pipelines.{
  DrmDevice, max_pipeline_cnt, get_free_device, get_free_pipeline_index, register_usb_hal,
  unregister_usb_hal,
}

-- ENODEV is 19.
abbrev pub e_nodev : ℤ
e_nodev = negsuc 18

-- What local variables hold before they are written.
pub record Unset : Type 0 where
  pub chip_id : ℕ
  pub value : ℕ
  pub stack : List ℕ
  pub timing : MiscTiming

-- The loop over `mode_arr`; the codes are logged only.
pub add_modes : List CustomMode → Dev → Dev
add_modes [] d = d
add_modes (m ∷ ms) d = add_modes ms (add_custom_mode d m.width m.height m.rate m.vic).1

-- `msdisp_usb_add_custom_mode`.
pub usb_add_custom_mode : Kernel → Unset → List CustomMode → Dev → M Dev
usb_add_custom_mode k u modes d = do
  init_gpio k u.chip_id u.value
  d' ← read_custom_timing k u.stack u.timing d
  resume_gpio k u.chip_id u.value
  pure (add_modes modes d')

-- The module's variables: `mode_arr` once `option_parserd` is set.
abbrev pub parsed_once :
    Bool → Option (List ℕ) → Option (List CustomMode) → Option (List CustomMode)
parsed_once memory text (some modes) = some modes
parsed_once memory text none = parser_custom_mode memory text

-- The allocations of the probe itself, and of the parser.
pub record ProbeAlloc : Type 0 where
  pub text : Bool
  pub usb_dev : Bool
  pub usb_hal : Bool
  pub adapter : Alloc

-- After a probe: its code, the DRM devices, and the adapter, if there is one, with what is held.
pub record Probed : Type 0 where
  pub code : ℤ
  pub drms : List (Option DrmDevice)
  pub adapter : Option Dev
  pub held : List ℕ

abbrev pub refused : ℤ → List (Option DrmDevice) → Probed
refused code drms = record { code = code; drms = drms; adapter = none; held = [] }

-- The device of an address is another now.
pub replaced : DrmDevice → List (Option DrmDevice) → List (Option DrmDevice)
replaced d [] = []
replaced d (none ∷ ds) = none ∷ replaced d ds
replaced d (some e ∷ ds) = if e.id == d.id then some d ∷ ds else some e ∷ replaced d ds

abbrev pub enabled_by : Fifo → Dev → Option (ℕ × ℕ × ℕ × ℕ) → Dev
enabled_by f d none = d
enabled_by f d (some (width, height, rate, format)) = (hal_enable f d width height rate format).1

-- The label `fail`, with an adapter.
abbrev pub undone : ℤ → List (Option DrmDevice) → Option (List ℕ) → Option Probed
undone code drms none = none
undone code drms (some held) =
    some (record { code = code; drms = drms; adapter = none; held = held })

-- With the registration's answer.
abbrev pub after_register :
    Fifo
    → Alloc
    → List (Option DrmDevice)
    → Dev
    → List ℕ
    → Option (ℤ × DrmDevice × Option (ℕ × ℕ × ℕ × ℕ))
    → Option Probed
after_register f a drms d held none = none
after_register f a drms d held (some (ret, drm, call)) =
    if nonzero ret
    then undone e_inval drms (hal_destroy a held)
    else some (record {
      code = success;
      drms = replaced drm drms;
      adapter = some (enabled_by f d call);
      held = held;
    })

-- With the adapter that `usb_hal_init` gives, for pipeline `i`.
abbrev pub after_init :
    Kernel
    → Fifo
    → Unset
    → Alloc
    → List CustomMode
    → List (Option DrmDevice)
    → DrmDevice
    → ℕ
    → ℕ
    → Attached
    → M (Option Probed)
after_init k f u a modes drms drm i hal none = pure none
after_init k f u a modes drms drm i hal (some (none, held)) =
    pure (some (record { code = e_nodev; drms = drms; adapter = none; held = held }))
after_init k f u a modes drms drm i hal (some (some d, held)) = do
  d' ← usb_add_custom_mode k u modes d
  pure (after_register f a drms d' held (register_usb_hal drm i hal))

-- With the pipeline that is free.
abbrev pub in_pipeline :
    Kernel
    → Fifo
    → Unset
    → Alloc
    → UsbId
    → List CustomMode
    → Dev
    → List (Option DrmDevice)
    → DrmDevice
    → ℕ
    → Option ℕ
    → M (Option Probed)
in_pipeline k f u a id modes zeroed drms drm hal none = pure (some (refused e_nodev drms))
in_pipeline k f u a id modes zeroed drms drm hal (some i) =
    if leb max_pipeline_cnt i
    then pure (some (refused e_nodev drms))
    else (do r ← hal_init k a id zeroed; after_init k f u a modes drms drm i hal r)

-- With the device that has a free pipeline.
abbrev pub on_device :
    Kernel
    → Fifo
    → Unset
    → Alloc
    → UsbId
    → List CustomMode
    → Dev
    → List (Option DrmDevice)
    → ℕ
    → Option DrmDevice
    → M (Option Probed)
on_device k f u a id modes zeroed drms hal none = pure (some (refused e_nodev drms))
on_device k f u a id modes zeroed drms hal (some drm) =
    in_pipeline k f u a id modes zeroed drms drm hal (get_free_pipeline_index drm)

-- With the parsed modes.
abbrev pub with_modes :
    Kernel
    → Fifo
    → Unset
    → ProbeAlloc
    → UsbId
    → Dev
    → List (Option DrmDevice)
    → ℕ
    → Option (List CustomMode)
    → M (Option Probed)
with_modes k f u a id zeroed drms hal none = pure none
with_modes k f u a id zeroed drms hal (some modes) =
    if not a.usb_dev || not a.usb_hal
    then pure (some (refused e_nomem drms))
    else if not (find_dev id)
    then pure (some (refused e_noent drms))
    else on_device k f u a.adapter id modes zeroed drms hal (get_free_device drms)

-- `msdisp_usb_probe`, for the adapter numbered `hal`. `msdisp_usb_find_usb_hal` knows the ids that
-- `msdisp_hal_find_dev` knows.
pub probe :
    Kernel
    → Fifo
    → Unset
    → ProbeAlloc
    → UsbId
    → Option (List ℕ)
    → Option (List CustomMode)
    → Dev
    → List (Option DrmDevice)
    → ℕ
    → M (Option Probed)
probe k f u a id text modes zeroed drms hal =
    with_modes k f u a id zeroed drms hal (parsed_once a.text text modes)

-- `msdisp_usb_disconnect`: the device's pipeline is freed, then the adapter.
unfoldable disconnect : Alloc → DrmDevice → ℕ → List ℕ → Option (DrmDevice × List ℕ)
disconnect a drm i held = elim (unregister_usb_hal drm i) [
  | none ↦ none
  | some (code, drm') ↦ elim (hal_destroy a held) [ none ↦ none | some held' ↦ some (drm', held') ]
]
