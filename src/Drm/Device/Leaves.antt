-- ===== src/Drm/Device/Leaves.antt =====
-- src/drm/msdisp_drm_drv.c: what the creation and the removal of a DRM device leave behind.
use ms912x.Base.{
  ℕ, zero, suc, ◌+◌, ◌≤◌, ◌≡◌, refl, inl, inr, Bool, true, false, Option, none, some, List, [], ◌∷◌,
  ◌++◌, arith, ltb, ◌==◌, if◌then◌else◌, Bool-cases,
}
use ms912x.Base.Int.{ℤ, nonzero}
use ms912x.Usb.{success}
use ms912x.Hal.Attach.{release}
use ms912x.Drm.Pipelines.{max_pipeline_cnt}
use ms912x.Drm.Sysfs.{PipelineDevice, sysfs_init, sysfs_exit}
use ms912x.Drm.Sysfs.Left.{LeftFrom, sysfs_exit-sysfs_init}
use ms912x.Drm.Device.{
  DeviceAnswers, timer, poll, fifo, DeviceResult, null, err_ptr, device, alloc_fifos, free_fifos,
  drm_init, after_fifos, device_create, device_remove,
}

-- How many of the FIFOs from `i` on are granted, `left` at most.
pub granted : (ℕ → Bool) → ℕ → ℕ → ℕ
granted memory i zero = 0
granted memory i (suc left) = if memory i then suc (granted memory (i + 1) left) else 0

-- The last FIFO that was granted.
abbrev pub last_fifo : ℕ → List ℕ
last_fifo zero = []
last_fifo (suc k) = fifo k ∷ []

-- The timer runs once all FIFOs are there, and the polling once the set-up behind it has succeeded.
abbrev pub started : DeviceAnswers → List ℕ
started a = if nonzero (drm_init a) then timer ∷ [] else poll ∷ (timer ∷ [])

abbrev pub lost : DeviceAnswers → ℕ → ℕ → List ℕ
lost a count got = (if got == count then started a else []) ++ last_fifo got

-- The removal of a device leaves the polling and what `LeftFrom` says.
abbrev pub Removed : (ℕ → ℤ) → ℕ → Option (List ℕ × List PipelineDevice) → Type 0
Removed device_add count none = ⊥
Removed device_add count (some (left, devices)) =
    (left ≡ poll ∷ []) × LeftFrom device_add 0 count devices

-- A failure has a code, and leaves what was lost; a device leaves when it is removed what `Removed` says.
abbrev pub Leaves : DeviceAnswers → ℕ → ℕ → Option DeviceResult → Type 0
Leaves a count got none = ⊥
Leaves a count got (some null) = ⊥
Leaves a count got (some (err_ptr code held)) = (nonzero code ≡ true) × (held ≡ lost a count got)
Leaves a count got (some (device held devices)) =
    Removed a.device_add count (device_remove count held devices)

-- Once all FIFOs are there, in the order in which they were granted.
all_there :
    (a : DeviceAnswers) (count cnt : ℕ) (held : List ℕ)
    → free_fifos 0 cnt (timer ∷ held) ≡ some (timer ∷ last_fifo count)
    → free_fifos 0 cnt (poll ∷ (timer ∷ held)) ≡ some (poll ∷ (timer ∷ last_fifo count))
    → (let ds = sysfs_init a.device_add 0 count in
        device_remove count (poll ∷ (timer ∷ held)) ds ≡ some (poll ∷ [], sysfs_exit ds))
    → Leaves a count count
        (after_fifos a count record { ret = success; alloc_fifo_cnt = cnt; held = held })
all_there a count cnt held freed freed' removed =
    let same : (count == count) ≡ true = ground arith in
    elim (Bool-cases (nonzero (drm_init a))) [
      | inl e ↦ rw (e, freed) (e, rw (same, e) refl)
      | inr e ↦ elim (Bool-cases (nonzero a.register)) [
        | inl e' ↦ rw (e, e', freed') (e', rw (same, e) refl)
        | inr e' ↦ rw (e, e', removed) (refl, sysfs_exit-sysfs_init a.device_add 0 count)
      ]
    ]

created_lem :
    (a : DeviceAnswers) (count : ℕ)
    → count ≤ 3
    → Leaves a count
        (granted a.fifo_memory 0 count)
        (after_fifos a count (alloc_fifos a.fifo_memory 0 count 0 []))
unfolding alloc_fifos free_fifos granted release device_remove
created_lem a zero le = all_there a 0 0 [] refl refl refl
created_lem a (suc zero) le = elim (Bool-cases (a.fifo_memory 0)) [
  | inr e ↦ rw e (refl, refl)
  | inl e ↦ rw e (all_there a 1 0 (fifo 0 ∷ []) refl refl refl)
]
created_lem a (suc (suc zero)) le = elim (Bool-cases (a.fifo_memory 0)) [
  | inr e ↦ rw e (refl, refl)
  | inl e ↦ elim (Bool-cases (a.fifo_memory 1)) [
    | inr e' ↦ rw (e, e') (refl, refl)
    | inl e' ↦ rw (e, e') (all_there a 2 1 (fifo 1 ∷ (fifo 0 ∷ [])) refl refl refl)
  ]
]
created_lem a (suc (suc (suc zero))) le = elim (Bool-cases (a.fifo_memory 0)) [
  | inr e ↦ rw e (refl, refl)
  | inl e ↦ elim (Bool-cases (a.fifo_memory 1)) [
    | inr e' ↦ rw (e, e') (refl, refl)
    | inl e' ↦ elim (Bool-cases (a.fifo_memory 2)) [
      | inr e'' ↦ rw (e, e', e'') (refl, refl)
      | inl e'' ↦
          rw (e, e', e'') (all_there a 3 2 (fifo 2 ∷ (fifo 1 ∷ (fifo 0 ∷ []))) refl refl refl)
    ]
  ]
]
created_lem a (suc (suc (suc (suc n)))) le = absurd (omega (arith, le))

-- Creating a DRM device with three pipelines at most, once there is memory for the device itself, on
-- every path, and removing it. What is counted are the FIFOs, the timer, the polling of the connectors and
-- the kernel's devices of the pipelines; nothing is released twice. A creation that fails has a code; it
-- leaves the FIFO that was granted last and, where all FIFOs were granted, the running timer and, if
-- it is the registration that fails, the polling too. A device that is removed has given back its
-- FIFOs and the timer, but leaves the polling; no device of a pipeline is in the tree any more, and the
-- reference to it is left exactly if `device_add` had added it.
pub device_create-Leaves :
    (a : DeviceAnswers) (count : ℕ)
    → count ≤ 3
    → a.memory ≡ true
    → Leaves a count (granted a.fifo_memory 0 count) (device_create a count)
unfolding device_create
device_create-Leaves a count le memory =
    let allowed : ltb max_pipeline_cnt count ≡ false = ground (arith, le) in
    rw (allowed, memory) (created_lem a count le)
