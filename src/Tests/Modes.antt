-- ===== src/Tests/Modes.antt =====
-- Runs of src/usb_hal/usb_hal_interface.c: modes and custom timings.
use ms912x.Base.{◌≡◌, refl, ◌↔◌, [], ◌∷◌, arith, replicate}
use ms912x.Usb.{success}
use ms912x.Hal.Dev.{Dev}
use ms912x.Hal.Mode.{video_mode_valid}
use ms912x.Hal.Mode.Laws.{Supported, video_mode_valid_iff}
use ms912x.Device.Edid.{MiscTiming}
use ms912x.Hal.Timing.{read_custom_timing}
use ms912x.Hal.Timing.Invariant.{IsTabled, read_custom_timing-IsTabled}
use ms912x.Tests.Fixtures.{full_hd, quiet, running, tuned}

video_mode_valid_iff_example :
    (video_mode_valid running full_hd ≡ success) ↔ Supported running full_hd
video_mode_valid_iff_example = video_mode_valid_iff running full_hd

abbrev no_timing : MiscTiming
no_timing = record {
  vic = 0;
  polarity = 0;
  htotal = 0;
  vtotal = 0;
  hactive = 0;
  vactive = 0;
  pixclk = 0;
  vfreq = 0;
  hoffset = 0;
  voffset = 0;
  hsyncwidth = 0;
  vsyncwidth = 0;
}

abbrev probed : Dev
probed = record tuned { misc_timing = no_timing ∷ no_timing ∷ [] }

probed-IsTabled : IsTabled probed
probed-IsTabled = record { timings = refl; count = omega arith; modes = omega arith }

read_custom_timing-IsTabled_example :
    IsTabled (read_custom_timing quiet (replicate 32 0) no_timing probed []).0
read_custom_timing-IsTabled_example =
    read_custom_timing-IsTabled quiet (replicate 32 0) no_timing probed [] probed-IsTabled
