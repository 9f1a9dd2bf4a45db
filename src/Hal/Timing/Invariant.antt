-- ===== src/Hal/Timing/Invariant.antt =====
-- src/usb_hal/usb_hal_interface.c: what the flash holds cannot break the adapter's tables.
use ms912x.Base.{
  ℕ, ◌+◌, ◌/◌, ◌≤◌, ◌≡◌, refl, inl, inr, some, List, arith, ◌==◌, Bool-cases, Option-cases, length,
  get_or,
}
use ms912x.Usb.{Kernel, History}
use ms912x.Device.Edid.{MiscTiming}
use ms912x.Hal.Dev.{Dev}
use ms912x.Hal.Mode.Laws.{add_custom_mode_room}
use ms912x.Device.Xdata.{read_flash}
use ms912x.Hal.Timing.{
  base_addr, store, same_bytes, magic, add_mode, keep_timings, load_timings, with_header,
  read_custom_timing, timing_count,
}

-- The sizes of the tables of an adapter.
pub record IsTabled (d : Dev) : Type 0 where
  pub timings : length d.misc_timing ≡ 2
  pub count : d.detail_count ≤ 2
  pub modes : length d.custom_mode ≤ 16

add_mode_lem :
    (t : MiscTiming) (d : Dev) → length d.custom_mode ≤ 16 → length (add_mode t d).custom_mode ≤ 16
unfolding add_mode
add_mode_lem t d h = add_custom_mode_room d t.hactive t.vactive ((t.vfreq + 50) / 100) t.vic h

keep_timings-IsTabled :
    (count : ℕ) (t0 t1 : MiscTiming) (d : Dev)
    → count ≤ 2
    → IsTabled d
    → IsTabled (keep_timings count t0 t1 d)
unfolding keep_timings
keep_timings-IsTabled count t0 t1 d le h =
    let one = add_mode_lem t0 d h.modes in
    let two = add_mode_lem t1 (add_mode t0 d) one in
    record {
      timings = refl;
      count = le;
      modes = elim (Bool-cases (count == 2)) [
        | inl two' ↦ simp two' two
        | inr one' ↦ simp one' one
      ];
    }

timing_count_lem : (b : ℕ) {count : ℕ} → timing_count b ≡ some count → count ≤ 2
timing_count_lem b e = ground arith

load_timings-IsTabled :
    (k : Kernel) (base count : ℕ) (data' : List ℕ) (unset : MiscTiming) (d : Dev) (h : History)
    → count ≤ 2
    → IsTabled d
    → IsTabled (load_timings k base count data' unset d h).0
unfolding load_timings
load_timings-IsTabled k base count data' unset d h le is = keep_timings-IsTabled count _ _ d le is

with_header-IsTabled :
    (k : Kernel) (unset : MiscTiming) (d : Dev) (data' : List ℕ) (h : History)
    → IsTabled d
    → IsTabled (with_header k unset d data' h).0
unfolding with_header
with_header-IsTabled k unset d data' h is = elim (Bool-cases (same_bytes data' magic)) [
  | inr other ↦ simp other is
  | inl same ↦ elim (Option-cases (timing_count (get_or data' 6 0))) [
    | inl none' ↦ simp (same, none') is
    | inr (count, found) ↦
        simp (same, found)
          (load_timings-IsTabled k (base_addr d) count data' unset d h
            (timing_count_lem (get_or data' 6 0) found) is)
  ]
]

-- Whatever the bus answers and whatever the local arrays hold at first, reading the flash keeps the sizes of
-- the adapter's tables: two timings, of which at most two count, and at most 16 custom modes.
pub read_custom_timing-IsTabled :
    (k : Kernel) (stack : List ℕ) (unset : MiscTiming) (d : Dev) (h : History)
    → IsTabled d
    → IsTabled (read_custom_timing k stack unset d h).0
unfolding read_custom_timing
read_custom_timing-IsTabled k stack unset d h is =
    let r = read_flash k (base_addr d) 7 h in
    with_header-IsTabled k unset d (store r.0.1 stack) r.1 is
