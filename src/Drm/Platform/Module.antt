-- ===== src/Drm/Platform/Module.antt =====
-- src/drm/msdisp_plat_drv.c: the module is loaded and unloaded. That the root device can be registered is
-- assumed.
use ms912x.Base.{
  ℕ, ◌≡◌, refl, ◌∙◌, inl, inr, Bool, true, false, not, Option, none, some, List, [], ◌∷◌, arith,
  ltb, ◌==◌, if◌then◌else◌, ==_iff, Bool-cases, length,
}
use ms912x.Base.Int.{ℤ, nonzero}
use ms912x.Usb.{success, e_inval}
use ms912x.Drm.Platform.{Context, Register, add_devices, destroyed, remove_all_devices}
use ms912x.Drm.Platform.Laws.{IsCounted, add_devices-IsCounted}

-- `g_ctx`, and what is registered with the kernel: the root device, the notifier of the USB devices
-- and the driver.
pub record Module : Type 0 where
  pub context : Context
  pub root : Bool
  pub notifier : Bool
  pub driver : Bool

abbrev pub empty_context : Context
empty_context = record { dev_count = 0; devices = none ∷ none ∷ none ∷ []; calls = 0 }

abbrev module_of : Bool → Context → Module
module_of driver c = record { context = c; root = true; notifier = true; driver = driver }

abbrev loaded : Bool → Option (ℤ × Context) → Option (ℤ × Module)
loaded driver none = none
loaded driver (some (ret, c)) = some (ret, module_of driver c)

-- `msdisp_init`: `ret` is what `platform_driver_register` returns, `count` the module's parameter.
pub msdisp_init : Register → ℤ → ℕ → Option (ℤ × Module)
msdisp_init register ret count =
    if nonzero ret
    then loaded false (some (ret, empty_context))
    else if not (count == 0)
    then loaded true (add_devices register count empty_context)
    else loaded true (some (success, empty_context))

-- `msdisp_exit`, with the devices that it destroys.
pub msdisp_exit : Module → Module × List ℕ
msdisp_exit m =
    let (c, gone) = remove_all_devices m.context in
    (record { context = c; root = false; notifier = false; driver = false }, gone)

abbrev pub init_code : ℤ → ℕ → ℤ
init_code ret count = if nonzero ret then ret else if ltb 3 count then e_inval else success

abbrev pub init_devices : ℤ → ℕ → ℕ
init_devices ret count = if nonzero ret then 0 else if ltb 3 count then 0 else count

-- What an initialisation leaves, and what the exit destroys of it.
abbrev pub Loaded : ℤ → ℕ → Option (ℤ × Module) → Type 0
Loaded ret count o =
    (m : Module) × ((o ≡ some (init_code ret count, m))
      × (m.driver ≡ not (nonzero ret))
      × (m.notifier ≡ true)
      × (m.root ≡ true)
      × (m.context.dev_count ≡ init_devices ret count)
      × (length (msdisp_exit m).1 ≡ init_devices ret count)
      × ((msdisp_exit m).0.context.dev_count ≡ 0))

empty-IsCounted : IsCounted empty_context
unfolding destroyed
empty-IsCounted = record { size = refl; count = refl }

module _ (register : Register)
    (grants : (call id : ℕ) → (a : ℕ) × (register call id ≡ some a)) where
  -- For a kernel that grants each registration of a device: loading the module returns the code of the
  -- driver's registration, or else -EINVAL for more than 3 devices, which are then not made, or else
  -- success with as many devices as asked for. With each code the root device and the notifier are
  -- registered afterwards, and the driver unless its own registration failed. Unloading destroys as
  -- many devices as were made, and leaves the counter at 0.
  pub msdisp_init-Loaded : (ret : ℤ) (count : ℕ) → Loaded ret count (msdisp_init register ret count)
  unfolding msdisp_init msdisp_exit remove_all_devices destroyed
  msdisp_init-Loaded ret count =
      let c0 = empty_context in
      let (fits, refused) = add_devices-IsCounted register grants count c0 empty-IsCounted in
      elim (Bool-cases (nonzero ret)) [
        | inl bad ↦
            let m = module_of false c0 in rw bad (m, (refl, refl, refl, refl, refl, refl, refl))
        | inr good ↦ elim (Bool-cases (ltb 3 count)) [
          | inl big ↦
              let m = module_of true c0 in
              let some' : (count == 0) ≡ false = ground (arith, big) in
              rw (good, big, some', refused (ground (arith, big)))
                (m, (refl, refl, refl, refl, refl, refl, refl))
          | inr small ↦ elim (Bool-cases (count == 0)) [
            | inl none' ↦
                let m = module_of true c0 in
                let z : count ≡ 0 = (==_iff count 0).0 none' in
                rw (good, z) (m, (refl, refl, refl, refl, refl, refl, refl))
            | inr some' ↦
                let (c, (e, (v, (n, (gone, after))))) = fits (ground (arith, small)) in
                let m = module_of true c in
                rw (good, small, some', e)
                  (m, (refl, refl, refl, refl, n ∙ omega arith, gone ∙ omega arith, refl))
          ]
        ]
      ]
