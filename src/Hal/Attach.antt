-- ===== src/Hal/Attach.antt =====
-- src/usb_hal/usb_hal_interface.c, hal_adaptor.c: an adapter is set up when it is plugged in, and taken
-- down again. What the kernel's allocations return is a parameter; what is held at a time is a list.
pub mod Balance
use ms912x.Base.{
  ℕ, zero, suc, ◌+◌, ◌-◌, ◌*◌, ◌/◌, ◌%◌, ◌^◌, ◌≤◌, ◌<◌, min, max, bit_and, bit_or, ◌≡◌, refl, sym,
  ap, ◌∙◌, subst, ◌≢◌, ◌↔◌, ◌⊎◌, inl, inr, Bool, true, false, not, ◌&&◌, ◌||◌, Option, none, some,
  List, [], ◌∷◌, ◌++◌, map, arith, ltb, leb, ◌==◌, if◌then◌else◌, ltb→lt, lt→ltb, leb→le, ==_iff,
  Bool-cases, Option-cases, length, get_elem?, get_or, set, take, drop, replicate, length-append,
  length-set, get_elem?-set_self, get_elem?-set_ne, get_elem?-lt, get_elem?-bound, get_elem?_past,
  length-take, length-drop, length-replicate, All, All-append,
}
use ms912x.Base.Int.{ℤ, pos, negsuc, nonzero}
use ms912x.Usb.{Kernel, M, ◌>>=◌, ◌>>◌, pure, success, e_nomem}
use ms912x.Device.Command.{port_cvbs_svideo}
use ms912x.Device.Chip.{get_chip_id, get_port_type, get_sdram_type, init_dev}
use ms912x.Hal.Dev.{Dev}
use ms912x.Hal.Mode.{add_custom_mode}
use ms912x.Hal.Frame.{◌>>=?◌}

-- ENOENT is 2.
abbrev pub e_noent : ℤ
e_noent = negsuc 1

-- `struct usb_device_id`, and the ids of the three chips.
pub record UsbId : Type 0 where
  pub vendor : ℕ
  pub product : ℕ

abbrev pub known_products : List ℕ
known_products = 0x9132 ∷ 0x9133 ∷ 0x9135 ∷ []

abbrev pub vendor_913x : ℕ
vendor_913x = 0x345f

pub is_listed : UsbId → List ℕ → Bool
is_listed id [] = false
is_listed id (p ∷ ps) =
    if id.vendor == vendor_913x && (id.product == p) then true else is_listed id ps

-- Does `msdisp_hal_find_dev` find a device? All three have the same functions.
unfoldable pub find_dev : UsbId → Bool
unfolding is_listed
find_dev id = is_listed id known_products

abbrev stored_or : Option ℕ → ℕ → ℕ
stored_or none old = old
stored_or (some v) old = v

-- A code that was never assigned counts as 0 here.
abbrev code_of : Option ℤ → ℤ
code_of none = success
code_of (some r) = r

-- The analog port has a custom mode of its own; VFMT_CEA_02_720X480P_60HZ is 2.
abbrev with_port_mode : Dev → Dev
with_port_mode d = if d.port_type == port_cvbs_svideo then (add_custom_mode d 720 480 60 2).1 else d

-- `usb_dev_hal_init`.
pub dev_hal_init : Kernel → Dev → M (ℤ × Dev)
dev_hal_init k d = do
  (ret, id) ← get_chip_id k
  (if nonzero (code_of ret) then pure (e_noent, d) else (do
    (ret', port) ← get_port_type k
    (if nonzero ret' then pure (e_noent, record d { chip_id = stored_or id d.chip_id }) else (do
      (ret'', sdram) ← get_sdram_type k
      let d' = record d {
        chip_id = stored_or id d.chip_id;
        port_type = stored_or port d.port_type;
        sdram_type = stored_or sdram d.sdram_type;
      }
      (if nonzero ret''
          then pure (e_noent, d')
          else (do code ← init_dev k d'.port_type; pure (code, with_port_mode d')))))))

-- What is held: `struct usb_hal`, `struct usb_hal_dev`, the reference to the DMA device, the cursor's
-- buffer, the transfer buffer and the scatter list of a request, the pages of its buffer while they
-- are listed, and the thread.
abbrev pub hal_mem : ℕ
hal_mem = 0

abbrev pub dev_mem : ℕ
dev_mem = 1

abbrev pub dma_ref : ℕ
dma_ref = 2

abbrev pub cursor_mem : ℕ
cursor_mem = 3

abbrev pub page_list : ℕ
page_list = 4

abbrev pub thread : ℕ
thread = 5

abbrev pub transfer_mem : ℕ → ℕ
transfer_mem i = 10 + i

abbrev pub sg_table : ℕ → ℕ
sg_table i = 20 + i

-- Giving one back; `none` is a second release, or one of what was never held.
unfoldable pub release : ℕ → List ℕ → Option (List ℕ)
release r [] = none
release r (a ∷ held) = elim (a == r) [
  | true ↦ some held
  | false ↦ elim (release r held) [ none ↦ none | some rest ↦ some (a ∷ rest) ]
]

abbrev pub release_if : Bool → ℕ → List ℕ → Option (List ℕ)
release_if true r held = release r held
release_if false r held = some held

-- What the allocations of one request return: the buffer, the list of pages, the scatter list.
pub record RequestAlloc : Type 0 where
  pub transfer : Bool
  pub pages : Bool
  pub sg : ℤ

pub record Alloc : Type 0 where
  pub hal : Bool
  pub dev : Bool
  pub dma : Bool
  pub cursor : Bool
  pub request0 : RequestAlloc
  pub request1 : RequestAlloc

-- A code with what is held afterwards.
abbrev pub Step : Type 0
Step = Option (ℤ × List ℕ)

-- `usb_hal_init_frame_request`, for request `i`.
pub init_frame_request : RequestAlloc → ℕ → List ℕ → Step
init_frame_request r i held =
    if not r.transfer
    then some (e_nomem, held)
    else if not r.pages
    then (release (transfer_mem i) (transfer_mem i ∷ held) >>=? λ held'. some (e_nomem, held'))
    else if nonzero r.sg
    then (release page_list (page_list ∷ (transfer_mem i ∷ held)) >>=? λ held'.
        release (transfer_mem i) held' >>=? λ held''. some (r.sg, held''))
    else (release page_list (sg_table i ∷ (page_list ∷ (transfer_mem i ∷ held))) >>=? λ held'.
        some (success, held'))

-- `usb_hal_free_frame_request` of a request that was set up.
pub free_frame_request : ℕ → List ℕ → Option (List ℕ)
free_frame_request i held = release (sg_table i) held >>=? λ held'. release (transfer_mem i) held'

-- The second request of `usb_dev_alloc_buf`, and the way back from its failure.
abbrev pub alloc_second : Alloc → ℤ × List ℕ → Step
alloc_second a (ret, held) =
    if nonzero ret
    then (free_frame_request 0 held >>=? λ held'.
        release cursor_mem held' >>=? λ held''. some (ret, held''))
    else some (success, held)

abbrev pub alloc_first : Alloc → ℤ × List ℕ → Step
alloc_first a (ret, held) =
    if nonzero ret
    then (release cursor_mem held >>=? λ held'. some (ret, held'))
    else (init_frame_request a.request1 1 held >>=? λ r. alloc_second a r)

-- `usb_dev_alloc_buf`.
pub alloc_buf : Alloc → List ℕ → Step
alloc_buf a held =
    if not a.cursor
    then some (e_nomem, held)
    else (init_frame_request a.request0 0 (cursor_mem ∷ held) >>=? λ r. alloc_first a r)

-- The label `err` of `usb_hal_init`, by which of the three pointers are set.
pub give_back : Bool → Bool → Bool → List ℕ → Option (List ℕ)
give_back dma dev hal held = release_if dma dma_ref held >>=? λ held'.
    release_if dev dev_mem held' >>=? λ held''. release_if hal hal_mem held''

-- An adapter, if one is set up, with what is held; `none` is a wrong release.
abbrev pub Attached : Type 0
Attached = Option (Option Dev × List ℕ)

abbrev pub failed_with : Option (List ℕ) → Attached
failed_with none = none
failed_with (some held) = some (none, held)

-- Once the buffers are there the thread runs; a failure of `kthread_run` is not looked at.
abbrev pub after_buffers : Alloc → Dev → Step → Attached
after_buffers a d none = none
after_buffers a d (some (ret, held)) =
    if nonzero ret
    then failed_with (give_back a.dma true true held)
    else some (some d, thread ∷ held)

abbrev pub with_dma : Alloc → List ℕ → List ℕ
with_dma a held = if a.dma then dma_ref ∷ held else held

abbrev pub after_chip : Alloc → List ℕ → ℤ × Dev → Attached
after_chip a held (ret, d) =
    if nonzero ret
    then failed_with (give_back a.dma true true held)
    else after_buffers a d (alloc_buf a held)

-- `usb_hal_init` on the zeroed `d` with the fields that it sets at once.
pub hal_init : Kernel → Alloc → UsbId → Dev → M Attached
hal_init k a id d =
    if not a.hal
    then pure (failed_with (give_back false false false []))
    else if not a.dev
    then pure (failed_with (give_back false false true (hal_mem ∷ [])))
    else if not (find_dev id)
    then pure (failed_with (give_back false true true (dev_mem ∷ (hal_mem ∷ []))))
    else (do r ← dev_hal_init k d; pure (after_chip a (with_dma a (dev_mem ∷ (hal_mem ∷ []))) r))

-- `usb_hal_destroy` of an adapter that was set up.
pub hal_destroy : Alloc → List ℕ → Option (List ℕ)
hal_destroy a held = release thread held >>=? λ h. free_frame_request 0 h >>=? λ h.
    free_frame_request 1 h >>=? λ h. release cursor_mem h >>=? λ h. give_back a.dma true true h
