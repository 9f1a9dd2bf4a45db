-- ===== src/Drm/Sysfs/Fits.antt =====
-- src/drm/msdisp_drm_sysfs.c: each file's text is printed whole, and the counters can be read back.
use ms912x.Base.{
  ℕ, ◌+◌, ◌^◌, ◌≤◌, ◌<◌, ◌≡◌, refl, sym, ap, ◌∙◌, subst, none, List, [], ◌∷◌, ◌++◌, arith, length,
  length-append, All,
}
use ms912x.Drm.Pipelines.{DrmFrameStat, Pipeline}
use ms912x.Text.{codes, page_size, decimal}
use ms912x.Text.Fits.{
  joined, IsWhole, whole_lem, length-decimal, length-hex_line, AreShort, length-joined,
}
use ms912x.Text.Reads.{numbers}
use ms912x.Text.Counters.{counters, AreLabels, labelled, labels_lem}
use ms912x.Drm.Sysfs.{frame_lines, frame_show, number, int_line, info_lines, info_show}

-- The counters of a pipeline, in the order of the file.
abbrev pub stat_values : DrmFrameStat → List ℕ
stat_values stat =
    stat.total ∷ stat.no_usb_hal ∷ stat.no_old_state ∷ stat.no_fb ∷ 0 ∷ stat.vmap_null ∷ 0 ∷ 0
    ∷ stat.handle_fail ∷ stat.full_needs_refresh ∷ stat.full_no_old_state ∷ stat.full_no_old_fb
    ∷ stat.full_no_damage ∷ []

abbrev stat_labels : List (List ℕ)
stat_labels =
    codes "total:"
    ∷ codes "no usb hal:"
    ∷ codes "no old state:"
    ∷ codes "no fb:"
    ∷ codes "vmap fail:"
    ∷ codes "vmap null:"
    ∷ codes "cpu access fail:"
    ∷ codes "aquire buffer fail:"
    ∷ codes "handle fail:"
    ∷ codes "full needs refresh:"
    ∷ codes "full no old state:"
    ∷ codes "full no old fb:"
    ∷ codes "full no damage:"
    ∷ []

stat_labels-AreLabels : AreLabels stat_labels
stat_labels-AreLabels = ground arith

frame_lines_lem :
    (stat : DrmFrameStat) → frame_lines stat ≡ counters (labelled stat_labels (stat_values stat))
unfolding frame_lines
frame_lines_lem stat = refl

length-int_line : (label : List ℕ) (n : ℕ) → length (int_line label n) ≤ length label + 11
length-int_line label n = omega (
  arith,
  length-append label (decimal 10 n ++ 10 ∷ []),
  length-append (decimal 10 n) (10 ∷ []),
  length-decimal 9 n,
)

info_lines_lem : (p : Pipeline) → AreShort 30 (info_lines p)
unfolding info_lines
info_lines_lem p = (
  omega (arith, length-int_line (codes "reg hal:") (number p.reg_flag)),
  (
    omega (arith, length-int_line (codes "status :") (number p.drm_status)),
    (
      omega (arith, length-int_line (codes "width:") p.drm_width),
      (
        omega (arith, length-int_line (codes "height:") p.drm_height),
        (
          omega (arith, length-int_line (codes "rate:") p.drm_rate),
          (omega (arith, length-hex_line (codes "fb format:") p.drm_fb_format), tt),
        ),
      ),
    ),
  ),
)

-- The two files of a pipeline: no line is cut off, the text leaves room for its terminator, and its
-- length is returned. With counters below 2^63, the numbers that are read behind the colons of the
-- first file are the counters.
pub pipeline_shows_lem :
    (p : Pipeline)
    → All (λ n. n < 2 ^ 63) (stat_values p.frame_stat)
    → IsWhole (frame_lines p.frame_stat) (frame_show p)
      × (numbers none (joined (frame_lines p.frame_stat)) ≡ stat_values p.frame_stat)
      × IsWhole (info_lines p) (info_show p)
unfolding frame_show info_show
pipeline_shows_lem p small =
    let stat = p.frame_stat in
    let lines = labels_lem stat_labels (stat_values stat) refl stat_labels-AreLabels in
    let same = frame_lines_lem stat in
    let info = length-joined 30 (info_lines p) (info_lines_lem p) in
    (
      whole_lem (frame_lines stat)
          (subst (λ ls. length (joined ls) < page_size) (sym same) (omega (arith, lines.0))),
      ap (λ ls. numbers none (joined ls)) same ∙ lines.1 small,
      whole_lem (info_lines p) (omega (arith, info)),
    )
