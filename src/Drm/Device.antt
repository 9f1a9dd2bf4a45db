-- ===== src/Drm/Device.antt =====
-- src/drm/msdisp_drm_drv.c: a DRM device is created and removed, with what is held at a time.
pub mod Leaves
use ms912x.Base.{
  ℕ, zero, suc, ◌+◌, ◌-◌, ◌*◌, ◌/◌, ◌%◌, ◌^◌, ◌≤◌, ◌<◌, min, max, bit_and, bit_or, ◌≡◌, refl, sym,
  ap, ◌∙◌, subst, ◌≢◌, ◌↔◌, ◌⊎◌, inl, inr, Bool, true, false, not, ◌&&◌, ◌||◌, Option, none, some,
  List, [], ◌∷◌, ◌++◌, map, arith, ltb, leb, ◌==◌, if◌then◌else◌, ltb→lt, lt→ltb, leb→le, ==_iff,
  Bool-cases, Option-cases, length, get_elem?, get_or, set, take, drop, replicate, length-append,
  length-set, get_elem?-set_self, get_elem?-set_ne, get_elem?-lt, get_elem?-bound, get_elem?_past,
  length-take, length-drop, length-replicate, All, All-append,
}
use ms912x.Base.Int.{ℤ, nonzero}
use ms912x.Usb.{success, e_nomem}
use ms912x.Hal.Frame.{◌>>=?◌}
use ms912x.Hal.Attach.{release}
use ms912x.Drm.Pipelines.{max_pipeline_cnt}
use ms912x.Drm.Sysfs.{PipelineDevice, sysfs_init, sysfs_exit}

-- What the calls of the creation return: is there memory for the device and for each FIFO, and the
-- codes of `msdisp_drm_modeset_init`, `drm_vblank_init`, `drm_dev_register` and, for the kernel's device
-- of each pipeline, `device_add`.
pub record DeviceAnswers : Type 0 where
  pub memory : Bool
  pub fifo_memory : ℕ → Bool
  pub modeset : ℤ
  pub vblank : ℤ
  pub register : ℤ
  pub device_add : ℕ → ℤ

-- What is held besides the device's own memory, which the kernel frees with its parent: the running
-- timer, the polling of the connectors, and the FIFO of a pipeline.
abbrev pub timer : ℕ
timer = 0

-- From `drm_kms_helper_poll_init` on; `drm_kms_helper_poll_fini`, which would end it, is never called.
abbrev pub poll : ℕ
poll = 1

abbrev pub fifo : ℕ → ℕ
fifo i = 10 + i

-- NULL, an error pointer or a device, with what is held; a device also has the kernel's devices of its
-- pipelines.
pub data DeviceResult : Type 0 where
  null : DeviceResult
  err_ptr : ℤ → List ℕ → DeviceResult
  device : List ℕ → List PipelineDevice → DeviceResult

-- The code, `alloc_fifo_cnt` and what is held.
pub record Allocated : Type 0 where
  pub ret : ℤ
  pub alloc_fifo_cnt : ℕ
  pub held : List ℕ

-- The loop over the pipelines from `i` on, with `left` to go.
pub alloc_fifos : (ℕ → Bool) → ℕ → ℕ → ℕ → List ℕ → Allocated
alloc_fifos memory i zero cnt held = record { ret = success; alloc_fifo_cnt = cnt; held = held }
alloc_fifos memory i (suc left) cnt held =
    if memory i
    then alloc_fifos memory (i + 1) left i (fifo i ∷ held)
    else record { ret = e_nomem; alloc_fifo_cnt = cnt; held = held }

-- The loop of the label `err_free`, and of the removal.
pub free_fifos : ℕ → ℕ → List ℕ → Option (List ℕ)
free_fifos i zero held = some held
free_fifos i (suc left) held = release (fifo i) held >>=? λ rest. free_fifos (i + 1) left rest

-- The code of `msdisp_drm_init`, which starts the timer first and, where the code is 0, the polling last.
abbrev pub drm_init : DeviceAnswers → ℤ
drm_init a = if nonzero a.modeset then a.modeset else a.vblank

abbrev pub err_free : ℤ → ℕ → List ℕ → Option DeviceResult
err_free ret cnt held = free_fifos 0 cnt held >>=? λ rest. some (err_ptr ret rest)

abbrev pub after_fifos : DeviceAnswers → ℕ → Allocated → Option DeviceResult
after_fifos a count r =
    if nonzero r.ret
    then err_free r.ret r.alloc_fifo_cnt r.held
    else if nonzero (drm_init a)
    then err_free (drm_init a) r.alloc_fifo_cnt (timer ∷ r.held)
    else if nonzero a.register
    then err_free a.register r.alloc_fifo_cnt (poll ∷ (timer ∷ r.held))
    else some (device (poll ∷ (timer ∷ r.held)) (sysfs_init a.device_add 0 count))

-- `msdisp_drm_device_create` with `count` pipelines. A failed `devm_drm_dev_alloc` is an error
-- pointer, which the test for NULL lets through: `none`.
pub device_create : DeviceAnswers → ℕ → Option DeviceResult
device_create a count =
    if ltb max_pipeline_cnt count
    then some null
    else if not a.memory
    then none
    else after_fifos a count (alloc_fifos a.fifo_memory 0 count 0 [])

-- `msdisp_drm_device_remove`: what is held after it, and the kernel's devices of the pipelines.
pub device_remove : ℕ → List ℕ → List PipelineDevice → Option (List ℕ × List PipelineDevice)
device_remove count held devices = free_fifos 0 count held >>=? λ rest.
    release timer rest >>=? λ left. some (left, sysfs_exit devices)

-- `msdisp_platform_device_probe`: the code, and the device that the driver's data of the platform device
-- points to. A null pointer is no error code.
abbrev pub probed : DeviceResult → ℤ × Option (List ℕ × List PipelineDevice)
probed null = (success, none)
probed (err_ptr ret held) = (ret, none)
probed (device held devices) = (success, some (held, devices))

pub platform_device_probe : DeviceAnswers → ℕ → Option (ℤ × Option (List ℕ × List PipelineDevice))
platform_device_probe a count = device_create a count >>=? λ r. some (probed r)

-- `msdisp_platform_device_remove`; `none` is the access through a null pointer.
pub platform_device_remove :
    ℕ → Option (List ℕ × List PipelineDevice) → Option (List ℕ × List PipelineDevice)
platform_device_remove count none = none
platform_device_remove count (some (held, devices)) = device_remove count held devices
