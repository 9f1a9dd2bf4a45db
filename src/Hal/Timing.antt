-- ===== src/Hal/Timing.antt =====
-- src/usb_hal/usb_hal_interface.c: `usb_hal_read_custom_timing`, the timings that the flash may hold. What
-- the local arrays hold before they are written is a parameter; numbers are little-endian.
pub mod Invariant
use ms912x.Base.{
  ℕ, zero, suc, ◌+◌, ◌-◌, ◌*◌, ◌/◌, ◌%◌, ◌^◌, ◌≤◌, ◌<◌, min, max, bit_and, bit_or, ◌≡◌, refl, sym,
  ap, ◌∙◌, subst, ◌≢◌, ◌↔◌, ◌⊎◌, inl, inr, Bool, true, false, not, ◌&&◌, ◌||◌, Option, none, some,
  List, [], ◌∷◌, ◌++◌, map, arith, ltb, leb, ◌==◌, if◌then◌else◌, ltb→lt, lt→ltb, leb→le, ==_iff,
  Bool-cases, Option-cases, length, get_elem?, get_or, set, take, drop, replicate, length-append,
  length-set, get_elem?-set_self, get_elem?-set_ne, get_elem?-lt, get_elem?_past, length-take,
  length-drop, length-replicate, All, All-append,
}
use ms912x.Base.Int.{ℤ}
use ms912x.Usb.{Kernel, M, ◌>>=◌, pure}
use ms912x.Device.Xdata.{read_flash}
use ms912x.Device.Edid.{MiscTiming}
use ms912x.Hal.Dev.{Dev}
use ms912x.Hal.Mode.{add_custom_mode}

abbrev pub le16 : List ℕ → ℕ → ℕ
le16 b i = get_or b i 0 + get_or b (i + 1) 0 * 2 ^ 8

-- The bytes of a `struct misctiming`.
pub timing_of : List ℕ → MiscTiming
timing_of b = record {
  vic = get_or b 0 0;
  polarity = get_or b 1 0;
  htotal = le16 b 2;
  vtotal = le16 b 4;
  hactive = le16 b 6;
  vactive = le16 b 8;
  pixclk = le16 b 10;
  vfreq = le16 b 12;
  hoffset = le16 b 14;
  voffset = le16 b 16;
  hsyncwidth = le16 b 18;
  vsyncwidth = le16 b 20;
}

abbrev pub misctiming_size : ℕ
misctiming_size = 22

-- The local array after a read stored `bytes`.
abbrev pub store : List ℕ → List ℕ → List ℕ
store bytes old = bytes ++ drop (length bytes) old

abbrev pub magic : List ℕ
magic = b'm' ∷ b'o' ∷ b'd' ∷ b'i' ∷ b'f' ∷ b'y' ∷ []

-- `memcmp(a, b, n) == 0`, for the `n` bytes of `b`.
abbrev pub same_bytes : List ℕ → List ℕ → Bool
same_bytes a [] = true
same_bytes [] (y ∷ ys) = false
same_bytes (x ∷ xs) (y ∷ ys) = x == y && same_bytes xs ys

abbrev pub timing_count : ℕ → Option ℕ
timing_count b = if b == 0x31 then some 1 else if b == 0x32 then some 2 else none

abbrev pub base_addr : Dev → ℕ
base_addr d = if d.chip_id == 0 then 0xfc50 else 0x1c00

-- The mode of a timing, with its rate rounded to whole hertz. The code is logged only.
pub add_mode : MiscTiming → Dev → Dev
add_mode t d = (add_custom_mode d t.hactive t.vactive ((t.vfreq + 50) / 100) t.vic).1

-- The end of the function, for the two timings of the local array.
pub keep_timings : ℕ → MiscTiming → MiscTiming → Dev → Dev
keep_timings count t0 t1 d =
    let one = add_mode t0 d in
    let both = if count == 2 then add_mode t1 one else one in
    record both { detail_count = count; misc_timing = t0 ∷ t1 ∷ [] }

-- The second timing, read if there are two.
pub second_timing : Kernel → ℕ → ℕ → List ℕ → MiscTiming → M MiscTiming
second_timing k base count data0 unset =
    if count == 2
    then (do
      (ret, bytes) ← read_flash k (base + 0x30) misctiming_size
      pure (timing_of (store bytes data0)))
    else pure unset

pub load_timings : Kernel → ℕ → ℕ → List ℕ → MiscTiming → Dev → M Dev
load_timings k base count data' unset d = do
  (ret, bytes) ← read_flash k (base + 0x10) misctiming_size
  t1 ← second_timing k base count (store bytes data') unset
  pure (keep_timings count (timing_of (store bytes data')) t1 d)

-- After the read of the header.
pub with_header : Kernel → MiscTiming → Dev → List ℕ → M Dev
with_header k unset d data' =
    if not (same_bytes data' magic) then pure d else elim (timing_count (get_or data' 6 0)) [
      | none ↦ pure d
      | some count ↦ load_timings k (base_addr d) count data' unset d
    ]

-- `unset` and `stack` are what the two local arrays hold at first.
pub read_custom_timing : Kernel → List ℕ → MiscTiming → Dev → M Dev
read_custom_timing k stack unset d = do
  (ret, bytes) ← read_flash k (base_addr d) 7
  with_header k unset d (store bytes stack)
