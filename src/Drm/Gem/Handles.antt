-- ===== src/Drm/Gem/Handles.antt =====
-- src/drm/msdisp_drm_gem.c: the look-up of an object's handle, and the flags of a mapping.
use ms912x.Base.{
  ℕ, suc, ◌≡◌, refl, ◌≢◌, ◌⊎◌, inl, inr, Bool, true, false, some, List, [], ◌∷◌, arith, ◌==◌,
  if◌then◌else◌, ==_iff, Bool-cases, get_elem?, All,
}
use ms912x.Base.Int.{ℤ, nonzero}

-- `msdisp_drm_gem_object_handle_lookup` in a file's table, in the order of the handles; 0 is no handle.
pub handle_lookup : List (ℕ × ℕ) → ℕ → ℕ
handle_lookup [] obj = 0
handle_lookup ((handle, it_obj) ∷ table) obj =
    let rest = handle_lookup table obj in if it_obj == obj then handle else rest

-- The flags of a mapping that the driver changes.
pub record VmFlags : Type 0 where
  pub pfnmap : Bool
  pub mixedmap : Bool

-- `msdisp_drm_gem_mmap`; `ret` is what `drm_gem_mmap` returns.
pub gem_mmap : ℤ → VmFlags → ℤ × VmFlags
gem_mmap ret flags =
    if nonzero ret then (ret, flags) else (ret, record { pfnmap = false; mixedmap = true })

-- The handle of an object that the table holds, or 0 for one that it does not hold.
handle_lookup_lem :
    (table : List (ℕ × ℕ)) (obj : ℕ)
    → (All (λ (entry : ℕ × ℕ). entry.1 ≢ obj) table × (handle_lookup table obj ≡ 0))
      ⊎ ((i : ℕ) × (get_elem? table i ≡ some (handle_lookup table obj, obj)))
unfolding handle_lookup
handle_lookup_lem [] obj = inl (tt, refl)
handle_lookup_lem ((handle, it_obj) ∷ table) obj = elim (Bool-cases (it_obj == obj)) [
  | inl e ↦ let same : it_obj ≡ obj = (==_iff it_obj obj).0 e in rw (e, same) (inr (0, refl))
  | inr e ↦ elim (handle_lookup_lem table obj) [
    | inl (all, z) ↦ rw e (inl ((ground (arith, e), all), z))
    | inr (i, at_) ↦ rw e (inr (suc i, at_))
  ]
]
