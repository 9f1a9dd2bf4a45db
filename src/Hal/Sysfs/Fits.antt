-- ===== src/Hal/Sysfs/Fits.antt =====
-- src/usb_hal/usb_hal_sysfs.c: each file's text is printed whole, and the counters can be read back.
use ms912x.Base.{
  ℕ, ◌^◌, ◌≤◌, ◌<◌, ◌≡◌, refl, sym, ap, ◌∙◌, subst, none, List, [], ◌∷◌, ◌++◌, map, arith, length,
  length-append, All,
}
use ms912x.Hal.Dev.{Dev, FrameStat, VideoMode}
use ms912x.Text.{codes, page_size, decimal}
use ms912x.Text.Fits.{
  joined, IsWhole, whole_lem, length-decimal, length-hex_line, AreShort, length-joined,
}
use ms912x.Hal.Mode.{max_custom_mode}
use ms912x.Text.Reads.{numbers}
use ms912x.Text.Counters.{labelled, AreLabels, labels_lem, counters, values}
use ms912x.Hal.Sysfs.{
  frame_lines, frame_show, state_number, dev_lines, dev_show, mode_line, custom_mode_show,
}

-- The counters of an adapter, in the order of the file.
abbrev pub stat_values : FrameStat → List ℕ
stat_values stat =
    stat.send_total ∷ stat.send_success ∷ stat.update_sequence ∷ stat.dropped_stale
    ∷ stat.state_error ∷ stat.send_fail ∷ stat.pack_last_ms ∷ stat.pack_max_ms ∷ stat.usb_last_ms
    ∷ stat.usb_max_ms ∷ stat.busy_drop ∷ stat.first_frame_success ∷ stat.keepalive_send ∷ []

abbrev stat_labels : List (List ℕ)
stat_labels =
    codes "send total:"
    ∷ codes "send success:"
    ∷ codes "update sequence:"
    ∷ codes "dropped stale:"
    ∷ codes "state error count:"
    ∷ codes "send fail:"
    ∷ codes "pack last ms:"
    ∷ codes "pack max ms:"
    ∷ codes "usb last ms:"
    ∷ codes "usb max ms:"
    ∷ codes "busy drop:"
    ∷ codes "first frame success:"
    ∷ codes "keepalive send:"
    ∷ []

stat_labels-AreLabels : AreLabels stat_labels
stat_labels-AreLabels = ground arith

frame_lines_lem :
    (stat : FrameStat) → frame_lines stat ≡ counters (labelled stat_labels (stat_values stat))
unfolding frame_lines
frame_lines_lem stat = refl

frame_show_lem :
    (d : Dev)
    → All (λ n. n < 2 ^ 63) (stat_values d.stat)
    → IsWhole (frame_lines d.stat) (frame_show d)
      × (numbers none (joined (frame_lines d.stat)) ≡ stat_values d.stat)
unfolding frame_show
frame_show_lem d small =
    let lines = labels_lem stat_labels (stat_values d.stat) refl stat_labels-AreLabels in
    let same = frame_lines_lem d.stat in
    (
      whole_lem (frame_lines d.stat)
          (subst (λ ls. length (joined ls) < page_size) (sym same) (omega (arith, lines.0))),
      ap (λ ls. numbers none (joined ls)) same ∙ lines.1 small,
    )

dev_lines_lem : (d : Dev) → AreShort 30 (dev_lines d)
unfolding dev_lines
dev_lines_lem d = (
  omega (arith, length-hex_line (codes "chip id:0x") d.chip_id),
  (
    omega (arith, length-hex_line (codes "video port:0x") d.port_type),
    (
      omega (arith, length-hex_line (codes "sdram type:0x") d.sdram_type),
      (omega (arith, length-hex_line (codes "dev state:0x") (state_number d.state)), tt),
    ),
  ),
)

mode_line_lem : (m : VideoMode) → length (mode_line m) ≤ 50
unfolding mode_line
mode_line_lem m =
    let vic = decimal 3 m.vic ++ 10 ∷ [] in
    let rate = decimal 5 m.rate ++ (codes " vid:" ++ vic) in
    let height = decimal 5 m.height ++ (codes " rate:" ++ rate) in
    omega (
      arith,
      length-append (decimal 5 m.width) (codes " height:" ++ height),
      length-append (decimal 5 m.height) (codes " rate:" ++ rate),
      length-append (decimal 5 m.rate) (codes " vid:" ++ vic),
      length-append (decimal 3 m.vic) (10 ∷ []),
      length-decimal 4 m.width,
      length-decimal 4 m.height,
      length-decimal 4 m.rate,
      length-decimal 2 m.vic,
    )

mode_lines_lem :
    (modes : List VideoMode)
    → AreShort 50 (map mode_line modes) × (length (map mode_line modes) ≡ length modes)
mode_lines_lem [] = (tt, refl)
mode_lines_lem (m ∷ modes) =
    let (short, e) = mode_lines_lem modes in ((mode_line_lem m, short), omega (arith, e))

-- The lines of `usb_hal_custom_mode_show`.
abbrev pub custom_lines : Dev → List (List ℕ)
custom_lines d =
    (codes "custom mode cnt:" ++ (decimal 2 (length d.custom_mode) ++ 10 ∷ []))
    ∷ map mode_line d.custom_mode

custom_first_lem : (n : ℕ) → length (codes "custom mode cnt:" ++ (decimal 2 n ++ 10 ∷ [])) ≤ 50
custom_first_lem n = omega (arith, length-append (decimal 2 n) (10 ∷ []), length-decimal 1 n)

-- The three files of an adapter with 16 custom modes at most: no line is cut off, the text leaves
-- room for its terminator, and its length is returned. With counters below 2^63, the numbers that are
-- read behind the colons of the first file are the counters.
pub shows_lem :
    (d : Dev)
    → length d.custom_mode ≤ max_custom_mode
    → All (λ n. n < 2 ^ 63) (stat_values d.stat)
    → IsWhole (frame_lines d.stat) (frame_show d)
      × (numbers none (joined (frame_lines d.stat)) ≡ stat_values d.stat)
      × IsWhole (dev_lines d) (dev_show d)
      × IsWhole (custom_lines d) (custom_mode_show d)
unfolding custom_mode_show dev_show
shows_lem d few small =
    let (first, values) = frame_show_lem d small in
    let (short, count) = mode_lines_lem d.custom_mode in
    let dev = length-joined 30 (dev_lines d) (dev_lines_lem d) in
    let modes =
      length-joined 50 (custom_lines d) (custom_first_lem (length d.custom_mode), short) in
    (
      first,
      values,
      whole_lem (dev_lines d) (omega (arith, dev)),
      whole_lem (custom_lines d) (omega (arith, modes, count, few)),
    )
