-- ===== src/Drm/Gem.antt =====
-- src/drm/msdisp_drm_gem.c: the pages and the mapping of a GEM object.
pub mod Steps
pub mod Pins
pub mod Free
pub mod Handles
use ms912x.Base.{
  ℕ, zero, suc, ◌+◌, ◌-◌, ◌*◌, ◌/◌, ◌%◌, ◌^◌, ◌≤◌, ◌<◌, min, max, bit_and, bit_or, ◌≡◌, refl, sym,
  ap, ◌∙◌, subst, ◌≢◌, ◌↔◌, ◌⊎◌, inl, inr, Bool, true, false, not, ◌&&◌, ◌||◌, Option, none, some,
  List, [], ◌∷◌, ◌++◌, map, arith, ltb, leb, ◌==◌, if◌then◌else◌, ltb→lt, lt→ltb, leb→le, ==_iff,
  Bool-cases, Option-cases, length, get_elem?, get_or, set, take, drop, replicate, length-append,
  length-set, get_elem?-set_self, get_elem?-set_ne, get_elem?-lt, get_elem?-bound, get_elem?_past,
  length-take, length-drop, length-replicate, All, All-append,
}
use ms912x.Base.Int.{ℤ, negsuc, nonzero, ◌==ℤ◌}
use mathlib.Core.Option
use ms912x.Hal.Attach.{e_noent}
use ms912x.Usb.{success, e_nomem}
use ms912x.Hal.Attach.{e_noent}

abbrev pub page_size : ℕ
page_size = 4096

-- `struct msdisp_drm_gem_object`: the size of its base, whether it was imported, the array of its
-- pages, the count of pins (an unsigned int) and the kernel's mapping of the pages.
pub record GemObject : Type 0 where
  pub size : ℕ
  pub import_attach : Bool
  pub pages : Option (List ℕ)
  pub pages_pin_count : ℕ
  pub vmapping : Option ℕ

-- `drm_gem_get_pages`: an array, or an error pointer.
pub data Pages : Type 0 where
  is_err : ℕ → Pages
  array : List ℕ → Pages

-- What is done with an array that is no longer needed.
pub data Given : Type 0 where
  put_back kvfreed : List ℕ → Given

-- An object with what was given back; `none` is an access through a null pointer.
abbrev pub Released : Type 0
Released = Option (GemObject × List Given)

abbrev pub get_pages_of : Pages → GemObject → Option (List ℕ) → ℤ × GemObject
get_pages_of answer o (some ps) = (success, o)
get_pages_of (is_err n) o none = (negsuc n, o)
get_pages_of (array ps) o none = (success, record o { pages = some ps })

-- `msdisp_drm_gem_get_pages`.
abbrev pub gem_get_pages : Pages → GemObject → ℤ × GemObject
gem_get_pages answer o = get_pages_of answer o o.pages

abbrev pub put_pages_of : GemObject → Bool → Option (List ℕ) → Released
put_pages_of o true none = some (o, [])
put_pages_of o true (some ps) = some (record o { pages = none }, kvfreed ps ∷ [])
put_pages_of o false none = none
put_pages_of o false (some ps) = some (record o { pages = none }, put_back ps ∷ [])

-- `msdisp_drm_gem_put_pages`.
abbrev pub gem_put_pages : GemObject → Released
gem_put_pages o = put_pages_of o o.import_attach o.pages

-- The counter one up and one down.
abbrev pub incremented : ℕ → ℕ
incremented n = (n + 1) % 2 ^ 32

abbrev pub decremented : ℕ → ℕ
decremented n = (n + (2 ^ 32 - 1)) % 2 ^ 32

abbrev pub after_get : ℤ × GemObject → ℤ × GemObject
after_get (ret, o) =
    if nonzero ret
    then (ret, record o { pages_pin_count = decremented o.pages_pin_count })
    else (ret, o)

abbrev pub pinned_more : GemObject → GemObject
pinned_more o = record o { pages_pin_count = incremented o.pages_pin_count }

-- `msdisp_drm_pin_pages`, which is `msdisp_drm_prime_pin` too.
unfoldable pub pin_pages : Pages → GemObject → ℤ × GemObject
pin_pages answer o =
    if o.pages_pin_count == 0
    then after_get (gem_get_pages answer (pinned_more o))
    else (success, pinned_more o)

abbrev pub pinned_less : GemObject → GemObject
pinned_less o = record o { pages_pin_count = decremented o.pages_pin_count }

-- `msdisp_drm_unpin_pages`, which is `msdisp_drm_prime_unpin` too.
unfoldable pub unpin_pages : GemObject → Released
unpin_pages o =
    if decremented o.pages_pin_count == 0
    then gem_put_pages (pinned_less o)
    else some (pinned_less o, [])

abbrev pub map_at : Option ℕ → ℤ × GemObject → ℤ × GemObject
map_at at_ (ret, o) = if nonzero ret then (ret, o) else elim at_ [
  | none ↦ (e_nomem, record o { vmapping = none })
  | some a ↦ (success, record o { vmapping = some a })
]

-- `msdisp_drm_gem_vmap`; `vmap` answers for the pages and their count.
unfoldable pub gem_vmap : Pages → (Option (List ℕ) → ℕ → Option ℕ) → GemObject → ℤ × GemObject
unfolding pin_pages
gem_vmap answer vmap o =
    let (ret, o') = pin_pages answer o in
    map_at (vmap o'.pages ((o'.size + (page_size - 1)) / page_size)) (ret, o')

-- `msdisp_drm_gem_vunmap`.
unfoldable pub gem_vunmap : GemObject → Released
unfolding unpin_pages
gem_vunmap o = unpin_pages (record o { vmapping = none })

abbrev pub put_rest : GemObject × List Given → Released
put_rest (o, given) = elim o.pages [
  | none ↦ some (o, given)
  | some ps ↦ elim (gem_put_pages o) [ none ↦ none | some (o', more) ↦ some (o', given ++ more) ]
]

abbrev pub unmapped : GemObject → Option ℕ → Released
unmapped o none = some (o, [])
unmapped o (some a) = gem_vunmap o

-- `msdisp_drm_gem_free_object`, as far as the pages go.
pub free_object : GemObject → Released
free_object o = elim (unmapped o o.vmapping) [ none ↦ none | some r ↦ put_rest r ]

-- The answers of the fault handler.
pub data Fault : Type 0 where
  nopage oom sigbus : Fault

-- EAGAIN is 11, ERESTARTSYS 512.
abbrev pub fault_of : ℤ → Fault
fault_of ret =
    if not (nonzero ret) || ret ==ℤ negsuc 10 || ret ==ℤ negsuc 511
    then nopage
    else if ret ==ℤ negsuc 11
    then oom
    else sigbus

-- `msdisp_drm_gem_fault`; `insert` is `vm_insert_page`, and `none` an access past the array.
pub gem_fault : (ℕ → ℤ) → GemObject → ℕ → ℕ → Option Fault
gem_fault insert o address vm_start = elim o.pages [
  | none ↦ some sigbus
  | some ps ↦
      Option.map (λ page. fault_of (insert page)) (get_elem? ps ((address - vm_start) / page_size))
]

abbrev pub with_offset : ℤ → ℕ → ℤ × GemObject → ℤ × GemObject × Option ℕ
with_offset created offset (ret, o) =
    if nonzero ret
    then (ret, o, none)
    else if nonzero created
    then (created, o, none)
    else (created, o, some offset)

-- `msdisp_drm_gem_mmap_offset` once the object is looked up; `created` is the code of
-- `drm_gem_create_mmap_offset`. The pages stay pinned.
unfoldable pub gem_mmap_offset : Pages → ℤ → ℕ → GemObject → ℤ × GemObject × Option ℕ
unfolding pin_pages
gem_mmap_offset answer created offset o = with_offset created offset (pin_pages answer o)

-- The whole function, with the object that `drm_gem_object_lookup` finds, if it finds one.
pub mmap_by_handle : Pages → ℤ → ℕ → Option GemObject → ℤ × Option GemObject × Option ℕ
mmap_by_handle answer created offset none = (e_noent, none, none)
mmap_by_handle answer created offset (some o) =
    let (ret, o', at_) = gem_mmap_offset answer created offset o in (ret, some o', at_)
