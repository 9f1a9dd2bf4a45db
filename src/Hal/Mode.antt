-- ===== src/Hal/Mode.antt =====
-- src/usb_hal/usb_hal_interface.c and usb_device.c: which modes and pixel formats are supported, the
-- custom modes, and the enable and disable requests.
pub mod Laws
pub mod Table
use ms912x.Base.{
  ℕ, ◌+◌, ◌*◌, ◌%◌, ◌^◌, bit_or, Bool, true, false, ◌&&◌, Option, none, some, List, [], ◌∷◌, ◌++◌,
  ltb, leb, ◌==◌, if◌then◌else◌, length,
}
use ms912x.Base.Int.{ℤ, pos, nonzero}
use ms912x.Usb.{success, minus_one, e_inval, e_range}
use ms912x.Device.Event.{Event, event_type_enable, event_type_disable}
use ms912x.Hal.Fifo.{Fifo}
use ms912x.Hal.Dev.{Dev, VideoMode, DevState}

-- `g_support_mode`; the `vic` is that of the VESA mode.
unfoldable pub support_modes : List VideoMode
support_modes =
    supported 129 60 1920 1080
    ∷ supported 120 60 1680 1050
    ∷ supported 107 60 1440 900
    ∷ supported 103 60 1400 1050
    ∷ supported 102 60 1366 768
    ∷ supported 100 60 1360 768
    ∷ supported 96 60 1280 1024
    ∷ supported 91 60 1280 960
    ∷ supported 87 60 1280 800
    ∷ supported 84 60 1280 768
    ∷ supported 79 60 1280 720
    ∷ supported 78 60 1280 600
    ∷ supported 76 60 1152 864
    ∷ supported 71 60 1024 768
    ∷ supported 66 60 800 600
    ∷ supported 64 60 640 480
    ∷ []
  where
    supported : ℕ → ℕ → ℕ → ℕ → VideoMode
    supported vic rate width height = record {
      width = width;
      height = height;
      rate = rate;
      vic = vic;
    }

-- Is it this width, height and rate?
abbrev pub matches : ℕ → ℕ → ℕ → VideoMode → Bool
matches width height rate m = (m.width == width) && ((m.height == height) && (m.rate == rate))

-- The `vic` of the first entry that matches: the loops of `ms9132_get_mode_vic` and of
-- `usb_hal_get_vic_for_cunstom_mode`.
unfoldable pub find_vic : ℕ → ℕ → ℕ → List VideoMode → Option ℕ
find_vic width height rate [] = none
find_vic width height rate (m ∷ ms) =
    if matches width height rate m then some m.vic else find_vic width height rate ms

unfoldable pub get_mode_vic : ℕ → ℕ → ℕ → Option ℕ
get_mode_vic width height rate = find_vic width height rate support_modes

unfoldable pub check_mode_for_custom_mode : Dev → VideoMode → ℤ
check_mode_for_custom_mode d m = elim (find_vic m.width m.height m.rate d.custom_mode) [
  | some vic ↦ success
  | none ↦ pos 1
]

-- SDRAM_TYPE_TO_SIZE.
abbrev pub sdram_type_to_size : ℕ → ℕ
sdram_type_to_size a = (2 * 1024 * 1024) * 2 ^ a

abbrev pub min_sram_size : VideoMode → ℕ
min_sram_size m = (m.width * m.height) * 2 ^ 2 % 2 ^ 32

unfoldable pub video_mode_valid : Dev → VideoMode → ℤ
video_mode_valid d m =
    if nonzero (check_mode_for_custom_mode d m)
    then elim (get_mode_vic m.width m.height (m.rate % 2 ^ 8)) [
      | none ↦ minus_one
      | some vic ↦
          if ltb (sdram_type_to_size d.sdram_type) (min_sram_size m) then e_inval else success
    ]
    else success

-- `*vic`, if a mode is found; otherwise the code is -1.
pub get_vic : Dev → ℕ → ℕ → ℕ → Option ℕ
get_vic d width height rate = elim (find_vic width height rate d.custom_mode) [
  | some vic ↦ some vic
  | none ↦ get_mode_vic width height rate
]

abbrev pub max_custom_mode : ℕ
max_custom_mode = 16

pub add_custom_mode : Dev → ℕ → ℕ → ℕ → ℕ → ℤ × Dev
add_custom_mode d width height rate vic =
    if leb max_custom_mode (length d.custom_mode) then (e_range, d) else (
      success,
      record d {
        custom_mode =
            d.custom_mode
            ++ record {
              width = width % 2 ^ 16;
              height = height % 2 ^ 16;
              rate = rate % 2 ^ 16;
              vic = vic;
            }
              ∷ [];
      },
    )

-- `struct fourcc_format_desc`.
pub record FormatDesc : Type 0 where
  pub fourcc : ℕ
  pub color_fmt : ℕ
  pub bpp : ℕ
  pub vpack_in : ℕ

-- `fourcc_code` of drm_fourcc.h.
abbrev pub fourcc_code : ℕ → ℕ → ℕ → ℕ → ℕ
fourcc_code a b c d = a + b * 2 ^ 8 + c * 2 ^ 16 + d * 2 ^ 24

abbrev pub color_format_rgb565 : ℕ
color_format_rgb565 = 0

abbrev pub color_format_rgb888 : ℕ
color_format_rgb888 = 1

abbrev pub color_format_yuv422 : ℕ
color_format_yuv422 = 2

-- `g_support_arr`.
unfoldable pub support_arr : List FormatDesc
support_arr =
    desc (fourcc_code b'R' b'G' b'1' b'6') 0 16 color_format_rgb565
    ∷ desc (fourcc_code b'R' b'G' b'2' b'4') 0 24 color_format_rgb888
    ∷ desc (fourcc_code b'B' b'G' b'2' b'4') 0 24 color_format_rgb888
    ∷ desc (fourcc_code b'X' b'R' b'2' b'4') 0 32 color_format_rgb888
    ∷ desc (fourcc_code b'X' b'B' b'2' b'4') 0 32 color_format_rgb888
    ∷ desc (fourcc_code b'A' b'R' b'2' b'4') 0 32 color_format_rgb888
    ∷ desc (fourcc_code b'A' b'B' b'2' b'4') 0 32 color_format_rgb888
    ∷ desc (fourcc_code b'N' b'V' b'1' b'2') 1 12 color_format_yuv422
    ∷ desc (fourcc_code b'Y' b'U' b'1' b'2') 1 12 color_format_yuv422
    ∷ []
  where
    desc : ℕ → ℕ → ℕ → ℕ → FormatDesc
    desc f c b v = record { fourcc = f; color_fmt = c; bpp = b; vpack_in = v }

unfoldable pub find_desc_in : ℕ → List FormatDesc → Option FormatDesc
find_desc_in fourcc [] = none
find_desc_in fourcc (d ∷ ds) = if d.fourcc == fourcc then some d else find_desc_in fourcc ds

unfoldable pub find_desc : ℕ → Option FormatDesc
find_desc fourcc = find_desc_in fourcc support_arr

unfoldable get_bpp_by_fourcc : ℕ → ℕ
get_bpp_by_fourcc fourcc = elim (find_desc fourcc) [ none ↦ 0 | some d ↦ d.bpp ]

unfoldable pub is_support_fourcc : ℕ → Bool
is_support_fourcc fourcc = elim (find_desc fourcc) [ none ↦ false | some d ↦ true ]

-- `color_out` for a format: RGB888 above 16 bits a pixel.
abbrev pub color_out_for : FormatDesc → ℕ
color_out_for desc = if ltb 16 desc.bpp then color_format_rgb888 else color_format_rgb565

-- The event that `usb_hal_enable` queues. `(vpack_out << 4) | vpack_in` joins two nibbles.
abbrev pub enable_event : Dev → VideoMode → Event
enable_event d m = record {
  kind = event_type_enable;
  para = record {
    color_in = bit_or (d.vpack_out * 2 ^ 4) d.vpack_in;
    color_out = d.color_out;
    vic = m.vic;
    trans_mode = d.trans_mode;
    width = m.width;
    height = m.height;
  };
}

abbrev pub disable_event : Event
disable_event = record {
  kind = event_type_disable;
  para = record { color_in = 0; color_out = 0; vic = 0; trans_mode = 0; width = 0; height = 0 };
}

abbrev pub queue_event : Fifo → Dev → Event → Dev
queue_event f d e = record d { fifo = f.kfifo_in d.fifo e }

-- The accepted request: the mode and the formats are stored and the event is queued.
abbrev pub enabled_with : Fifo → Dev → VideoMode → FormatDesc → Dev
enabled_with f d m desc =
    let d' = record d {
      mode = m;
      color_out = color_out_for desc;
      vpack_in = color_format_yuv422;
    } in
    queue_event f d' (enable_event d' m)

unfoldable pub enable : Fifo → Dev → VideoMode → ℕ → ℤ × Dev
enable f d m fourcc =
    if nonzero (video_mode_valid d m) then (e_inval, d) else elim (find_desc fourcc) [
      | none ↦ (e_inval, d)
      | some desc ↦ (success, enabled_with f d m desc)
    ]

unfoldable pub disable : Fifo → Dev → ℤ × Dev
disable f d = (success, queue_event f d disable_event)

unfoldable is_disabled : Dev → Bool
is_disabled d = elim d.state [ DevState.disabled ↦ true | _ ↦ false ]
