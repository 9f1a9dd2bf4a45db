-- ===== src/Drm/Platform.antt =====
-- src/drm/msdisp_plat_drv.c, msdisp_plat_dev.c: the table of the platform devices, by their addresses.
-- What the kernel gives for a registration, an address or an error pointer, is a parameter.
pub mod Laws
pub mod Module
use ms912x.Base.{
  ℕ, zero, suc, ◌+◌, ◌-◌, ◌*◌, ◌/◌, ◌%◌, ◌^◌, ◌≤◌, ◌<◌, min, max, bit_and, bit_or, ◌≡◌, refl, sym,
  ap, ◌∙◌, subst, ◌≢◌, ◌↔◌, ◌⊎◌, inl, inr, Bool, true, false, not, ◌&&◌, ◌||◌, Option, none, some,
  List, [], ◌∷◌, ◌++◌, map, arith, ltb, leb, ◌==◌, if◌then◌else◌, ltb→lt, lt→ltb, leb→le, ==_iff,
  Bool-cases, Option-cases, length, get_elem?, get_or, set, take, drop, replicate, length-append,
  length-set, get_elem?-set_self, get_elem?-set_ne, get_elem?-lt, get_elem?-bound, get_elem?_past,
  length-take, length-drop, length-replicate, All, All-append,
}
use ms912x.Base.Int.{ℤ, negsuc, nonzero}
use ms912x.Usb.{success, minus_one, e_inval, e_nomem}

-- `struct msdisp_platform_drv_context`: the counter and the slots, MSDISP_DEVICE_COUNT_MAX of them;
-- an empty slot is null. The registrations made so far are counted for the kernel's answers.
pub record Context : Type 0 where
  pub dev_count : ℕ
  pub devices : List (Option ℕ)
  pub calls : ℕ

abbrev pub device_count_max : ℕ
device_count_max = 3

-- `none` is null: the index is too large, or the slot is empty.
unfoldable pub get_device : Context → ℕ → Option ℕ
get_device c id =
    if leb device_count_max id
    then none
    else elim (get_elem? c.devices id) [ none ↦ none | some slot ↦ slot ]

abbrev pub holds : ℕ → Option ℕ → Bool
holds a none = false
holds a (some b) = b == a

-- The loop of `msdisp_platform_get_plat_device_index`; `none` is -1.
pub index_from : ℕ → ℕ → List (Option ℕ) → Option ℕ
index_from i a [] = none
index_from i a (slot ∷ slots) = if holds a slot then some i else index_from (i + 1) a slots

pub get_plat_device_index : Context → Option ℕ → Option ℕ
get_plat_device_index c none = none
get_plat_device_index c (some a) = index_from 0 a c.devices

abbrev pub is_null : Option ℕ → Bool
is_null none = true
is_null (some a) = false

-- The loop of `msdisp_platform_drv_get_free_idx`; `none` is -ENOMEM.
pub free_idx_from : ℕ → List (Option ℕ) → Option ℕ
free_idx_from i [] = none
free_idx_from i (slot ∷ slots) = if is_null slot then some i else free_idx_from (i + 1) slots

pub get_free_idx : Context → Option ℕ
get_free_idx c = free_idx_from 0 c.devices

-- The kernel's answer to a registration, by the number of the call and the id asked for; `none` is an
-- error pointer.
abbrev pub Register : Type 0
Register = ℕ → ℕ → Option ℕ

-- `msdisp_platform_dev_create` sets the DMA mask of what it was given: `none` is the access through
-- an error pointer.
abbrev pub dev_create : Register → ℕ → ℕ → Option ℕ
dev_create register call id = register call id

abbrev pub stored : Context → ℕ → Option ℕ → Option (ℤ × Context)
stored c i none = none
stored c i (some pdev) = some (
  success,
  record c {
    devices = set c.devices i (some pdev);
    dev_count = (c.dev_count + 1) % 2 ^ 32;
    calls = c.calls + 1;
  },
)

-- `msdisp_platform_drv_create_new_device` with the result of the search. Where it returns an error
-- pointer, `msdisp_platform_device_add` returns -EINVAL.
abbrev pub create_at : Register → Context → Option ℕ → Option (ℤ × Context)
create_at register c none = some (e_inval, c)
create_at register c (some i) =
    if leb device_count_max c.dev_count
    then some (e_inval, c)
    else stored c i (dev_create register c.calls i)

-- `msdisp_platform_device_add`.
pub device_add : Register → Context → Option (ℤ × Context)
device_add register c = create_at register c (get_free_idx c)

-- `while (val-- && device_add(device) == 0)`.
pub add_loop : Register → ℕ → Context → Option Context
add_loop register zero c = some c
add_loop register (suc val) c = elim (device_add register c) [
  | none ↦ none
  | some (code, c') ↦ let rest = add_loop register val c' in if nonzero code then some c' else rest
]

abbrev with_success : Option Context → Option (ℤ × Context)
with_success none = none
with_success (some c) = some (success, c)

-- The subtraction is one of `unsigned int`.
pub add_devices : Register → ℕ → Context → Option (ℤ × Context)
add_devices register val c =
    if val == 0
    then some (success, c)
    else if ltb ((device_count_max + 2 ^ 32 - c.dev_count) % 2 ^ 32) val
    then some (e_inval, c)
    else with_success (add_loop register val c)

-- The loop of `msdisp_platform_remove_all_devices`, with the devices that it destroys, in order.
unfoldable pub destroyed : List (Option ℕ) → List ℕ
destroyed [] = []
destroyed (none ∷ slots) = destroyed slots
destroyed (some a ∷ slots) = a ∷ destroyed slots

pub cleared : List (Option ℕ) → List (Option ℕ)
cleared [] = []
cleared (slot ∷ slots) = none ∷ cleared slots

pub remove_all_devices : Context → Context × List ℕ
remove_all_devices c =
    (record c { devices = cleared c.devices; dev_count = 0 }, destroyed c.devices)
