-- ===== src/Hal/Mode/Laws.antt =====
-- src/usb_hal/usb_hal_interface.c: which modes are accepted, and the custom modes.
use ms912x.Base.{
  ℕ, ◌*◌, ◌%◌, ◌^◌, ◌≤◌, ◌<◌, ◌≡◌, refl, ◌↔◌, ◌⊎◌, inl, inr, true, false, some, List, [], ◌∷◌, ◌++◌,
  arith, leb, if◌then◌else◌, Bool-cases, Option-cases, length, length-append,
}
use ms912x.Usb.{success, e_range}
use ms912x.Hal.Dev.{Dev, VideoMode}
use ms912x.Hal.Fifo.{Fifo}
use ms912x.Hal.Mode.{
  FormatDesc, is_support_fourcc, find_desc, enable, enabled_with, matches, find_vic, support_modes,
  get_mode_vic, check_mode_for_custom_mode, video_mode_valid, get_vic, sdram_type_to_size,
  min_sram_size, add_custom_mode, max_custom_mode,
}
use ms912x.Hal.Mode.Table.{
  Lists, sizes, IsSize, support_modes-IsSize, IsSize-support_modes, IsSize-area,
}

-- A custom mode; or one of the known sizes at a rate that is 60 as a byte, of which two frames of two
-- bytes a pixel fit the SDRAM of 2 MiB times a power of two.
abbrev pub Supported : Dev → VideoMode → Type 0
Supported d m =
    Lists m.width m.height m.rate d.custom_mode
    ⊎ (IsSize m.width m.height sizes
        × (m.rate % 2 ^ 8 ≡ 60)
        × (2 * (2 * (m.width * m.height)) ≤ 2 * 1024 * 1024 * 2 ^ d.sdram_type))

-- For a known size the two frames are counted without a wrap.
min_sram_size_lem :
    (m : VideoMode)
    → IsSize m.width m.height sizes
    → min_sram_size m ≡ 2 * (2 * (m.width * m.height))
min_sram_size_lem m i = omega (arith, IsSize-area m.width m.height i)

find_vic-some :
    (w h r : ℕ) (ms : List VideoMode) → Lists w h r ms → (v : ℕ) × (find_vic w h r ms ≡ some v)
unfolding find_vic
find_vic-some w h r [] l = absurd l
find_vic-some w h r (m ∷ ms) (inl e) = (m.vic, ground arith)
find_vic-some w h r (m ∷ ms) (inr l) = elim (Bool-cases (matches w h r m)) [
  | inl t ↦ (m.vic, rw t)
  | inr t ↦ let (v, e) = find_vic-some w h r ms l in (v, rw t e)
]

find_vic-Lists :
    (w h r : ℕ) (ms : List VideoMode) {v : ℕ} → find_vic w h r ms ≡ some v → Lists w h r ms
unfolding find_vic
find_vic-Lists w h r [] e = cc
find_vic-Lists w h r (m ∷ ms) e = elim (Bool-cases (matches w h r m)) [
  | inl t ↦ inl (ground arith, ground arith, ground arith)
  | inr t ↦ inr (find_vic-Lists w h r ms (rw t at e))
]

-- A mode is valid exactly if it is one of the adapter's custom modes in width, height and rate, or if it
-- has one of the 16 sizes listed in `sizes`, a rate whose low byte is 60 (60 Hz, but 316 Hz as well,
-- since the rate is cast to a byte), and its two frames of two bytes a pixel fit the SDRAM, which is
-- 2 MiB times 2 ^ `sdram_type`.
pub video_mode_valid_iff :
    (d : Dev) (m : VideoMode) → (video_mode_valid d m ≡ success) ↔ Supported d m
unfolding video_mode_valid check_mode_for_custom_mode get_mode_vic
video_mode_valid_iff d m = (to, from)
  where
    to : video_mode_valid d m ≡ success → Supported d m
    to e = elim (Option-cases (find_vic m.width m.height m.rate d.custom_mode)) [
      | inr (v, c) ↦ inl (find_vic-Lists m.width m.height m.rate d.custom_mode c)
      | inl c ↦ elim (Option-cases (find_vic m.width m.height (m.rate % 2 ^ 8) support_modes)) [
        | inr (v, s) ↦
            let l = find_vic-Lists m.width m.height (m.rate % 2 ^ 8) support_modes s in
            let (i, rate) = support_modes-IsSize m.width m.height (m.rate % 2 ^ 8) l in
            let fits : min_sram_size m ≤ sdram_type_to_size d.sdram_type = ground arith in
            inr (i, rate, rw (min_sram_size_lem m i) at fits)
        | inl s ↦ absurd (ground arith)
      ]
    ]

    from : Supported d m → video_mode_valid d m ≡ success
    from (inl l) =
        let (v, f) = find_vic-some m.width m.height m.rate d.custom_mode l in ground arith
    from (inr (i, rate, fits)) =
        let l = IsSize-support_modes m.width m.height i in
        let (v, f) = find_vic-some m.width m.height 60 support_modes l in
        let s : find_vic m.width m.height (m.rate % 2 ^ 8) support_modes ≡ some v = rw rate f in
        let room : min_sram_size m ≤ sdram_type_to_size d.sdram_type =
          rw (min_sram_size_lem m i) fits in
        ground arith

-- For a valid mode whose rate is a byte, a vic is found.
pub get_vic_total :
    (d : Dev) (m : VideoMode)
    → video_mode_valid d m ≡ success
    → m.rate < 2 ^ 8
    → (v : ℕ) × (get_vic d m.width m.height m.rate ≡ some v)
unfolding get_vic get_mode_vic
get_vic_total d m e lt = elim (Option-cases (find_vic m.width m.height m.rate d.custom_mode)) [
  | inr (v, c) ↦ (v, ground arith)
  | inl c ↦ elim ((video_mode_valid_iff d m).0 e) [
    | inl l ↦
        let (v, f) = find_vic-some m.width m.height m.rate d.custom_mode l in (v, ground arith)
    | inr p ↦
        let r : m.rate ≡ 60 = omega (arith, p.1) in
        let l = IsSize-support_modes m.width m.height p.0 in
        let (v, f) = find_vic-some m.width m.height m.rate support_modes (rw r l) in
        (v, ground arith)
  ]
]

Lists-append :
    (w h r : ℕ) (ms : List VideoMode) (m : VideoMode)
    → (m.width ≡ w) × (m.height ≡ h) × (m.rate ≡ r)
    → Lists w h r (ms ++ m ∷ [])
Lists-append w h r [] m e = inl e
Lists-append w h r (x ∷ ms) m e = inr (Lists-append w h r ms m e)

lt_16 : (n : ℕ) → leb 16 n ≡ false → n < 16
lt_16 n e = ground arith

-- While there are fewer than 16 custom modes one more is accepted, and is found afterwards under its
-- width, height and rate. With 16 the request is refused with -ERANGE and nothing changes. There are
-- never more than 16.
pub add_custom_mode_lem :
    (d : Dev) (w h r vic : ℕ)
    → w < 2 ^ 16
    → h < 2 ^ 16
    → r < 2 ^ 16
    → length d.custom_mode ≤ 16
    → let (code, d') = add_custom_mode d w h r vic in
      let full = leb max_custom_mode (length d.custom_mode) in
      (length d'.custom_mode ≤ 16)
      × (code ≡ (if full then e_range else success))
      × ((full ≡ true) × (d' ≡ d) ⊎ (full ≡ false) × Lists w h r d'.custom_mode)
unfolding add_custom_mode
add_custom_mode_lem d w h r vic hw hh hr bound =
    elim (Bool-cases (leb max_custom_mode (length d.custom_mode))) [
      | inl full ↦ rw full (bound, refl, inl (refl, refl))
      | inr room ↦ rw room (
        omega (
          arith,
          length-append d.custom_mode (
              record { width = w % 2 ^ 16; height = h % 2 ^ 16; rate = r % 2 ^ 16; vic = vic }
              ∷ []),
          lt_16 (length d.custom_mode) room,
        ),
        refl,
        inr (refl, Lists-append w h r d.custom_mode _ (omega arith, omega arith, omega arith)),
      )
    ]

-- A valid mode and a known format are accepted.
pub enable_accepts :
    (f : Fifo) (d : Dev) (m : VideoMode) (fourcc : ℕ) (desc : FormatDesc)
    → video_mode_valid d m ≡ success
    → find_desc fourcc ≡ some desc
    → enable f d m fourcc ≡ (success, enabled_with f d m desc)
unfolding enable
enable_accepts f d m fourcc desc valid known = simp (valid, known)

-- A supported format has a descriptor.
pub format_known :
    (fourcc : ℕ)
    → is_support_fourcc fourcc ≡ true
    → (desc : FormatDesc) × (find_desc fourcc ≡ some desc)
unfolding is_support_fourcc
format_known fourcc e = elim (Option-cases (find_desc fourcc)) [
  | inl none' ↦ absurd (ground arith)
  | inr found ↦ found
]

-- There are never more than 16 custom modes.
pub add_custom_mode_room :
    (d : Dev) (w h r vic : ℕ)
    → length d.custom_mode ≤ 16
    → length (add_custom_mode d w h r vic).1.custom_mode ≤ 16
unfolding add_custom_mode
add_custom_mode_room d w h r vic bound =
    elim (Bool-cases (leb max_custom_mode (length d.custom_mode))) [
      | inl full ↦ simp full bound
      | inr room ↦ simp room (
          omega (
            arith,
            length-append d.custom_mode (
                record { width = w % 2 ^ 16; height = h % 2 ^ 16; rate = r % 2 ^ 16; vic = vic }
                ∷ []),
            lt_16 (length d.custom_mode) room,
          ))
    ]
