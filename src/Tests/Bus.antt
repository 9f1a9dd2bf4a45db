-- ===== src/Tests/Bus.antt =====
-- Runs of src/usb_hal/usb_device.c.
use ms912x.Base.{
  ℕ, ◌+◌, ◌%◌, ◌^◌, ◌≤◌, ◌≡◌, refl, inr, false, ◌&&◌, none, some, [], ◌∷◌, arith, ltb,
  if◌then◌else◌, length, get_elem?, replicate,
}
use ms912x.Usb.{success, e_range}
use ms912x.Device.Xdata.{read_xdata, read_flash}
use ms912x.Device.Xdata.Bounds.{stored_length, reads_bounded}
use ms912x.Device.Xdata.Serves.{range}
use ms912x.Device.Xdata.Read.{read_xdata_lem, code_after}
use ms912x.Device.Event.{Event, event_proc, event_type_enable, event_type_disable}
use ms912x.Device.Event.Script.{
  event_proc_transcript, stop_transcript, setup_transcript, start_transcript,
}
use ms912x.Device.Edid.{
  MiscTiming, DetailedTiming, edid_table, get_edid, detailed_timing_convert, update_detailed_timing,
}
use ms912x.Device.Edid.Tables.{edid_vga_cvbs}
use ms912x.Device.Edid.Checksum.{sum}
use ms912x.Device.Edid.Timing.{layout, layout-detailed_timing_convert, layout_vertical_sync}
use ms912x.Device.Edid.Update.{update_detailed_timing_lem}
use ms912x.Device.Edid.Answer.{IsBlock, get_edid-IsBlock}
use ms912x.Tests.Sim.{adapter, memory, serves}

-- A register holds the low byte of its address.
abbrev low_bytes : ℕ → ℕ
low_bytes a = a % 256

reads_bounded_example :
    (stored_length (read_xdata (adapter low_bytes) 0x4000 9 []) ≤ 9)
    × (stored_length (read_flash (adapter low_bytes) 0x4000 20 []) ≤ 20)
reads_bounded_example = reads_bounded (adapter low_bytes) 0x4000 9 20 []

-- Ten bytes over three reads.
read_xdata_lem_example : (read_xdata (adapter low_bytes) 0x30fa 10 []).0 ≡ (
    if ltb 0x1_0000 (0x30fa + 10)
    then (some e_range, [])
    else (code_after 10 none, range (memory low_bytes []) 0x30fa 10))
read_xdata_lem_example = read_xdata_lem (serves low_bytes) 0x30fa 10 []

abbrev enable_1080p : Event
enable_1080p = record {
  kind = event_type_enable;
  para = record {
    color_in = 0x12;
    color_out = 1;
    vic = 129;
    trans_mode = 3;
    width = 1920;
    height = 1080;
  };
}

abbrev turn_off : Event
turn_off = record { kind = event_type_disable; para = enable_1080p.para }

event_proc_transcript_example : event_proc (adapter low_bytes) enable_1080p 0 4 [] ≡ (
  success,
  start_transcript
      (memory low_bytes)
      0
      4
      (setup_transcript enable_1080p (stop_transcript (memory low_bytes) 0 4 [])),
)
event_proc_transcript_example =
    event_proc_transcript (serves low_bytes) enable_1080p 0 4 [] refl refl

-- 1920x1080 at 60 Hz.
abbrev full_hd : DetailedTiming
full_hd = record {
  pixclk = 14850;
  hactive = 1920;
  hblank = 280;
  vactive = 1080;
  vblank = 45;
  hoffset = 88;
  hsyncwidth = 44;
  voffset = 4;
  vsyncwidth = 5;
  h_image_size = 0;
  v_image_size = 0;
  hborder = 0;
  vborder = 0;
  polarity = 3;
}

layout-detailed_timing_convert_example :
    ((layout (detailed_timing_convert full_hd)).pixclk ≡ 14850)
    × ((layout (detailed_timing_convert full_hd)).hactive ≡ 1920)
    × ((layout (detailed_timing_convert full_hd)).hblank ≡ 280)
    × ((layout (detailed_timing_convert full_hd)).vactive ≡ 1080)
    × ((layout (detailed_timing_convert full_hd)).vblank ≡ 45)
    × ((layout (detailed_timing_convert full_hd)).hoffset ≡ 88)
    × ((layout (detailed_timing_convert full_hd)).hsyncwidth ≡ 44)
layout-detailed_timing_convert_example = layout-detailed_timing_convert full_hd

-- A vertical sync at line 20 is written as one at line 4.
abbrev late_sync : DetailedTiming
late_sync = record full_hd { voffset = 20; vsyncwidth = 17 }

layout_vertical_sync_example :
    ((layout (detailed_timing_convert late_sync)).voffset ≡ 20 % 16)
    × ((layout (detailed_timing_convert late_sync)).vsyncwidth ≡ 17 % 16)
layout_vertical_sync_example = layout_vertical_sync late_sync (omega arith) (omega arith)

abbrev flash_timing : MiscTiming
flash_timing = record {
  vic = 130;
  polarity = 3;
  htotal = 2200;
  vtotal = 1125;
  hactive = 1920;
  vactive = 1080;
  pixclk = 14850;
  vfreq = 6000;
  hoffset = 192;
  voffset = 41;
  hsyncwidth = 44;
  vsyncwidth = 5;
}

update_detailed_timing_lem_example :
    (length (update_detailed_timing (replicate 128 1) (flash_timing ∷ []) 1 0) ≡ 0x80)
    × (get_elem? (update_detailed_timing (replicate 128 1) (flash_timing ∷ []) 1 0) 0x7e
        ≡ get_elem? (replicate 128 1) 0x7e)
    × (sum (update_detailed_timing (replicate 128 1) (flash_timing ∷ []) 1 0) % 2 ^ 8
        ≡ (if ltb 0 1 && ltb 0 1 then 0 else sum (replicate 128 1) % 2 ^ 8))
update_detailed_timing_lem_example =
    update_detailed_timing_lem (replicate 128 1) (flash_timing ∷ []) 1 0 0x7e refl (inr refl)

svideo_table : edid_table false 1 0 ≡ some edid_vga_cvbs
unfolding edid_table
svideo_table = refl

get_edid-IsBlock_example :
    ((get_edid (adapter low_bytes) false (flash_timing ∷ []) 1 1 0 0 (replicate 128 0) 0x80 []).0.0
      ≡ some success)
    × IsBlock
        (get_edid
          (adapter low_bytes)
          false
          (flash_timing ∷ [])
          1
          1
          0
          0
          (replicate 128 0)
          0x80
          []).0.1
    × ((get_edid (adapter low_bytes) false (flash_timing ∷ []) 1 1 0 0 (replicate 128 0) 0x80 []).1
        ≡ [])
get_edid-IsBlock_example =
    get_edid-IsBlock (adapter low_bytes) false (flash_timing ∷ []) 1 1 0 (replicate 128 0) [] refl
      svideo_table
