-- ===== src/Drm/Sysfs.antt =====
-- src/drm/msdisp_drm_sysfs.c: the files of a pipeline, and the kernel's devices that carry them.
pub mod Fits
pub mod Left
use ms912x.Base.{
  ℕ, zero, suc, ◌+◌, ◌-◌, ◌*◌, ◌/◌, ◌%◌, ◌^◌, ◌≤◌, ◌<◌, min, max, bit_and, bit_or, ◌≡◌, refl, sym,
  ap, ◌∙◌, subst, ◌≢◌, ◌↔◌, ◌⊎◌, inl, inr, Bool, true, false, not, ◌&&◌, ◌||◌, Option, none, some,
  List, [], ◌∷◌, ◌++◌, map, arith, ltb, leb, ◌==◌, if◌then◌else◌, ltb→lt, lt→ltb, leb→le, ==_iff,
  Bool-cases, Option-cases, length, get_elem?, get_or, set, take, drop, replicate, length-append,
  length-set, get_elem?-set_self, get_elem?-set_ne, get_elem?-lt, get_elem?-bound, get_elem?_past,
  length-take, length-drop, length-replicate, take_front, drop_front, take_within, All, All-append,
}
use ms912x.Base.Int.{ℤ, nonzero}
use ms912x.Drm.Pipelines.{DrmFrameStat, Pipeline}
use ms912x.Text.{codes, Page, empty_page, print_all, decimal, hex_line, counter}

-- `msdisp_drm_frame_show`: the lines. Nothing counts where a 0 stands.
pub frame_lines : DrmFrameStat → List (List ℕ)
frame_lines stat =
    counter (codes "total:") stat.total
    ∷ counter (codes "no usb hal:") stat.no_usb_hal
    ∷ counter (codes "no old state:") stat.no_old_state
    ∷ counter (codes "no fb:") stat.no_fb
    ∷ counter (codes "vmap fail:") 0
    ∷ counter (codes "vmap null:") stat.vmap_null
    ∷ counter (codes "cpu access fail:") 0
    ∷ counter (codes "aquire buffer fail:") 0
    ∷ counter (codes "handle fail:") stat.handle_fail
    ∷ counter (codes "full needs refresh:") stat.full_needs_refresh
    ∷ counter (codes "full no old state:") stat.full_no_old_state
    ∷ counter (codes "full no old fb:") stat.full_no_old_fb
    ∷ counter (codes "full no damage:") stat.full_no_damage
    ∷ []

pub frame_show : Pipeline → Option Page
unfolding frame_lines
frame_show p = print_all (frame_lines p.frame_stat) empty_page

abbrev pub number : Bool → ℕ
number b = if b then 1 else 0

-- A label with an `int` that is not negative, as a line.
abbrev pub int_line : List ℕ → ℕ → List ℕ
int_line label n = label ++ (decimal 10 n ++ 10 ∷ [])

pub info_lines : Pipeline → List (List ℕ)
info_lines p =
    int_line (codes "reg hal:") (number p.reg_flag)
    ∷ int_line (codes "status :") (number p.drm_status)
    ∷ int_line (codes "width:") p.drm_width
    ∷ int_line (codes "height:") p.drm_height
    ∷ int_line (codes "rate:") p.drm_rate
    ∷ hex_line (codes "fb format:") p.drm_fb_format
    ∷ []

-- `msdisp_drm_pipeline_info_show`.
pub info_show : Pipeline → Option Page
unfolding info_lines
info_show p = print_all (info_lines p) empty_page

-- The kernel's device of a pipeline: was it added, and how many references does the driver hold?
-- `dev_init` is the pipeline's.
pub record PipelineDevice : Type 0 where
  pub added : Bool
  pub references : ℕ
  pub dev_init : Bool

-- `do_init_device` and what `msdisp_drm_sysfs_init` keeps of it; `ret` is what `device_add` returns.
abbrev pub init_device : ℤ → PipelineDevice
init_device ret = record { added = not (nonzero ret); references = 1; dev_init = not (nonzero ret) }

-- `msdisp_drm_sysfs_init` from pipeline `i` on, `n` to go.
pub sysfs_init : (ℕ → ℤ) → ℕ → ℕ → List PipelineDevice
sysfs_init device_add i zero = []
sysfs_init device_add i (suc n) = init_device (device_add i) ∷ sysfs_init device_add (suc i) n

-- `device_del` or `put_device`.
abbrev pub exit_device : PipelineDevice → PipelineDevice
exit_device d =
    if d.dev_init then record d { added = false } else record d { references = d.references - 1 }

-- `msdisp_drm_sysfs_exit`.
abbrev pub sysfs_exit : List PipelineDevice → List PipelineDevice
sysfs_exit ds = map exit_device ds
