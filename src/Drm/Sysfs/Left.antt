-- ===== src/Drm/Sysfs/Left.antt =====
-- src/drm/msdisp_drm_sysfs.c: what is left of the kernel's devices of the pipelines.
use ms912x.Base.{ℕ, zero, suc, ◌≡◌, refl, inl, inr, false, List, [], ◌∷◌, if◌then◌else◌, Bool-cases}
use ms912x.Base.Int.{ℤ, nonzero}
use ms912x.Drm.Sysfs.{PipelineDevice, sysfs_init, sysfs_exit}

-- After the exit: a pipeline's device is in no tree any more; the reference to it is left exactly if it was added.
abbrev LeftOne : ℤ → PipelineDevice → Type 0
LeftOne ret d = (d.added ≡ false) × (d.references ≡ (if nonzero ret then 0 else 1))

-- The devices of the pipelines from `i` on, `n` of them.
pub LeftFrom : (ℕ → ℤ) → ℕ → ℕ → List PipelineDevice → Type 0
LeftFrom device_add i zero [] = Unit
LeftFrom device_add i zero (d ∷ ds) = ⊥
LeftFrom device_add i (suc n) [] = ⊥
LeftFrom device_add i (suc n) (d ∷ ds) = LeftOne (device_add i) d × LeftFrom device_add (suc i) n ds

pub sysfs_exit-sysfs_init :
    (device_add : ℕ → ℤ) (i n : ℕ)
    → LeftFrom device_add i n (sysfs_exit (sysfs_init device_add i n))
unfolding sysfs_init LeftFrom
sysfs_exit-sysfs_init device_add i zero = tt
sysfs_exit-sysfs_init device_add i (suc n) = elim (Bool-cases (nonzero (device_add i))) [
  | inl e ↦ (rw e (refl, refl), sysfs_exit-sysfs_init device_add (suc i) n)
  | inr e ↦ (rw e (refl, refl), sysfs_exit-sysfs_init device_add (suc i) n)
]
