-- ===== src/Drm/Buffers.antt =====
-- src/drm/msdisp_drm_gem.c, msdisp_drm_fb.c: the sizes of dumb buffers and of framebuffers on them.
pub mod Fits
use ms912x.Base.{
  ℕ, zero, suc, ◌+◌, ◌-◌, ◌*◌, ◌/◌, ◌%◌, ◌^◌, ◌≤◌, ◌<◌, min, max, bit_and, bit_or, ◌≡◌, refl, sym,
  ap, ◌∙◌, subst, ◌≢◌, ◌↔◌, ◌⊎◌, inl, inr, Bool, true, false, not, ◌&&◌, ◌||◌, Option, none, some,
  List, [], ◌∷◌, ◌++◌, map, arith, ltb, leb, ◌==◌, if◌then◌else◌, ltb→lt, lt→ltb, leb→le, ==_iff,
  Bool-cases, Option-cases, length, get_elem?, get_or, set, take, drop, replicate, length-append,
  length-set, get_elem?-set_self, get_elem?-set_ne, get_elem?-lt, get_elem?-bound, get_elem?_past,
  length-take, length-drop, length-replicate, All, All-append,
}
use ms912x.Base.Int.{ℤ, negsuc, nonzero}
use ms912x.Usb.{success, e_nomem, e_inval}
use ms912x.Hal.Attach.{e_noent}
use ms912x.Drm.Crtc.{Framebuffer}
use ms912x.Drm.Gem.{GemObject, page_size}

-- The mask of `msdisp_drm_align_pitch`, one less than a power of 2.
abbrev pub pitch_mask : ℕ → ℕ
pitch_mask cpp =
    if cpp == 1 then 255 else if cpp == 2 then 127 else if cpp == 3 || cpp == 4 then 63 else 0

-- `msdisp_drm_align_pitch`: the low bits are cleared by a division; the product wraps.
unfoldable pub align_pitch : ℕ → ℕ → ℕ
align_pitch width cpp =
    let step = pitch_mask cpp + 1 in
    let aligned = (width + pitch_mask cpp) % 2 ^ 32 in aligned / step * step * cpp % 2 ^ 32

-- What the calls of `msdisp_drm_gem_create` return: the object's memory, the code of
-- `drm_gem_object_init`, that of `drm_gem_handle_create` and its handle.
pub record CreateAnswers : Type 0 where
  pub memory : Bool
  pub init : ℤ
  pub handle_code : ℤ
  pub handle : ℕ

abbrev pub new_object : ℕ → GemObject
new_object size = record {
  size = size;
  import_attach = false;
  pages = none;
  pages_pin_count = 0;
  vmapping = none;
}

-- `msdisp_drm_gem_alloc_object`.
abbrev pub gem_alloc_object : CreateAnswers → ℕ → Option GemObject
gem_alloc_object a size = if not a.memory || nonzero a.init then none else some (new_object size)

abbrev pub with_handle : CreateAnswers → Option GemObject → ℤ × Option (ℕ × GemObject)
with_handle a none = (e_nomem, none)
with_handle a (some o) =
    if nonzero a.handle_code then (a.handle_code, none) else (success, some (a.handle, o))

-- `roundup` to pages.
abbrev pub round_up : ℕ → ℕ
round_up size = (size + (page_size - 1)) / page_size * page_size

-- `msdisp_drm_gem_create`.
unfoldable pub gem_create : CreateAnswers → ℕ → ℤ × Option (ℕ × GemObject)
gem_create a size = with_handle a (gem_alloc_object a (round_up size))

-- `struct drm_mode_create_dumb`: what is asked for.
pub record DumbArgs : Type 0 where
  pub width : ℕ
  pub height : ℕ
  pub bpp : ℕ

abbrev pub dumb_pitch : DumbArgs → ℕ
dumb_pitch args = align_pitch args.width ((args.bpp + 7) % 2 ^ 32 / 8)

abbrev pub dumb_size : DumbArgs → ℕ
dumb_size args = dumb_pitch args * args.height % 2 ^ 32

-- What is answered: the pitch, the size, and what `msdisp_drm_gem_create` gives.
pub record Dumb : Type 0 where
  pub pitch : ℕ
  pub size : ℕ
  pub result : ℤ × Option (ℕ × GemObject)

-- `msdisp_drm_dumb_create`.
unfoldable pub dumb_create : CreateAnswers → DumbArgs → Dumb
dumb_create a args = record {
  pitch = dumb_pitch args;
  size = dumb_size args;
  result = gem_create a (dumb_size args);
}

-- `struct drm_mode_fb_cmd2`, with its first offset and pitch.
pub record FbCmd : Type 0 where
  pub width : ℕ
  pub height : ℕ
  pub pixel_format : ℕ
  pub pitch : ℕ
  pub offset : ℕ

-- An error pointer, or a framebuffer.
pub data FbResult : Type 0 where
  err : ℤ → FbResult
  created : Framebuffer → FbResult

-- `msdisp_drm_fb_get_bpp`, by what `drm_format_info` gives as the bytes of a pixel.
abbrev pub bpp_of : Option ℕ → ℕ
bpp_of none = 0
bpp_of (some cpp) = cpp * 8

-- The framebuffer as `drm_helper_mode_fill_fb_struct` fills it.
abbrev pub filled : FbCmd → ℕ → Framebuffer
filled c cpp = record {
  width = c.width;
  height = c.height;
  pitch = c.pitch;
  format = c.pixel_format;
  cpp = cpp;
}

-- The size that is asked for, a u32, rounded up to pages.
abbrev pub fb_size : FbCmd → ℕ
fb_size c =
    let size = (c.offset + c.pitch * c.height) % 2 ^ 32 in
    (size + (page_size - 1)) % 2 ^ 32 / page_size * page_size

-- With the object, which now has a reference more than `refs`; it is dropped on a failure.
abbrev pub fb_on : Bool → ℤ → FbCmd → ℕ → Option GemObject → FbResult × ℕ
fb_on memory init c refs none = (err e_noent, refs)
fb_on memory init c refs (some o) =
    if ltb o.size (fb_size c) || not memory
    then (err e_nomem, suc refs - 1)
    else if nonzero init
    then (err e_inval, suc refs - 1)
    else (created (filled c 4), suc refs)

-- `msdisp_drm_fb_user_fb_create`, with the object's references afterwards. `memory` and `init` are
-- what the allocation and `drm_framebuffer_init` return; 32 bits are 4 bytes.
pub user_fb_create : (ℕ → Option ℕ) → Bool → ℤ → FbCmd → Option GemObject → ℕ → FbResult × ℕ
user_fb_create format_info memory init c object refs =
    if bpp_of (format_info c.pixel_format) == 32
    then fb_on memory init c refs object
    else (err e_inval, refs)
