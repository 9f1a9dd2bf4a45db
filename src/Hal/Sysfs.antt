-- ===== src/Hal/Sysfs.antt =====
-- src/usb_hal/usb_hal_sysfs.c: the files of an adapter.
pub mod Fits
pub mod Registers
use ms912x.Base.{
  ℕ, zero, suc, ◌+◌, ◌-◌, ◌*◌, ◌/◌, ◌%◌, ◌^◌, ◌≤◌, ◌<◌, min, max, bit_and, bit_or, ◌≡◌, refl, sym,
  ap, ◌∙◌, subst, ◌≢◌, ◌↔◌, ◌⊎◌, inl, inr, Bool, true, false, not, ◌&&◌, ◌||◌, Option, none, some,
  List, [], ◌∷◌, ◌++◌, map, arith, ltb, leb, ◌==◌, if◌then◌else◌, ltb→lt, lt→ltb, leb→le, ==_iff,
  Bool-cases, Option-cases, length, get_elem?, get_or, set, take, drop, replicate, length-append,
  length-set, get_elem?-set_self, get_elem?-set_ne, get_elem?-lt, get_elem?-bound, get_elem?_past,
  length-take, length-drop, length-replicate, take_front, drop_front, take_within, All, All-append,
}
use ms912x.Hal.Dev.{Dev, DevState, FrameStat, VideoMode}
use ms912x.Text.{codes, Page, empty_page, print_all, decimal, hex_line, counter}

-- `usb_hal_frame_show`: the lines.
pub frame_lines : FrameStat → List (List ℕ)
frame_lines stat =
    counter (codes "send total:") stat.send_total
    ∷ counter (codes "send success:") stat.send_success
    ∷ counter (codes "update sequence:") stat.update_sequence
    ∷ counter (codes "dropped stale:") stat.dropped_stale
    ∷ counter (codes "state error count:") stat.state_error
    ∷ counter (codes "send fail:") stat.send_fail
    ∷ counter (codes "pack last ms:") stat.pack_last_ms
    ∷ counter (codes "pack max ms:") stat.pack_max_ms
    ∷ counter (codes "usb last ms:") stat.usb_last_ms
    ∷ counter (codes "usb max ms:") stat.usb_max_ms
    ∷ counter (codes "busy drop:") stat.busy_drop
    ∷ counter (codes "first frame success:") stat.first_frame_success
    ∷ counter (codes "keepalive send:") stat.keepalive_send
    ∷ []

pub frame_show : Dev → Option Page
unfolding frame_lines
frame_show d = print_all (frame_lines d.stat) empty_page

-- `usb_hal_reset_stats_store`.
pub reset_stats_store : Dev → Dev
reset_stats_store d = record d {
  stat = record {
    send_total = 0;
    send_success = 0;
    update_sequence = 0;
    dropped_stale = 0;
    state_error = 0;
    send_fail = 0;
    pack_last_ms = 0;
    pack_max_ms = 0;
    usb_last_ms = 0;
    usb_max_ms = 0;
    busy_drop = 0;
    first_frame_success = 0;
    keepalive_send = 0;
  };
}

-- The constants of the states.
abbrev pub state_number : DevState → ℕ
state_number DevState.unknown = 0
state_number DevState.enabled = 1
state_number DevState.disabled = 2

pub dev_lines : Dev → List (List ℕ)
dev_lines d =
    hex_line (codes "chip id:0x") d.chip_id
    ∷ hex_line (codes "video port:0x") d.port_type
    ∷ hex_line (codes "sdram type:0x") d.sdram_type
    ∷ hex_line (codes "dev state:0x") (state_number d.state)
    ∷ []

-- `usb_hal_dev_show`.
pub dev_show : Dev → Option Page
unfolding dev_lines
dev_show d = print_all (dev_lines d) empty_page

pub mode_line : VideoMode → List ℕ
mode_line m =
    codes "width:"
    ++ (decimal 5 m.width
        ++ (codes " height:"
            ++ (decimal 5 m.height
                ++ (codes " rate:"
                    ++ (decimal 5 m.rate ++ (codes " vid:" ++ (decimal 3 m.vic ++ 10 ∷ [])))))))

-- `usb_hal_custom_mode_show`.
pub custom_mode_show : Dev → Option Page
unfolding mode_line
custom_mode_show d =
    print_all
      ((codes "custom mode cnt:" ++ (decimal 2 (length d.custom_mode) ++ 10 ∷ []))
        ∷ map mode_line d.custom_mode)
      empty_page
