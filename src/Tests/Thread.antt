-- ===== src/Tests/Thread.antt =====
-- Runs of src/usb_hal/usb_hal_thread.c.
use ms912x.Base.{◌≡◌, refl, inr, some, List, [], ◌∷◌, arith}
use ms912x.Hal.Mode.{FormatDesc, fourcc_code, find_desc, find_desc_in, support_arr}
use ms912x.Hal.Machine.{drain}
use ms912x.Hal.Machine.Events.{Drained, drain-Drained}
use ms912x.Hal.Thread.{Thread, Act, round, ask_enable, ask_disable, thread_entry, thread_round}
use ms912x.Hal.Thread.Serves.{thread_entry-Idle}
use ms912x.Tests.Fixtures.{full_hd, listed, listed-IsFifo, quiet, waiting}

drain-Drained_example : Drained quiet waiting waiting.fifo (drain listed quiet waiting []) []
drain-Drained_example = drain-Drained listed 51 listed-IsFifo quiet waiting []

-- DRM_FORMAT_XRGB8888.
abbrev xrgb8888 : FormatDesc
xrgb8888 = record {
  fourcc = fourcc_code b'X' b'R' b'2' b'4';
  color_fmt = 0;
  bpp = 32;
  vpack_in = 1;
}

xrgb8888_known : find_desc (fourcc_code b'X' b'R' b'2' b'4') ≡ some xrgb8888
unfolding find_desc find_desc_in support_arr
xrgb8888_known = refl

abbrev awaited : Thread
awaited = record { dev = waiting; sema = 1; queued = [] }

abbrev afternoon : List Act
afternoon = round 3 ∷ ask_enable full_hd 0x34325258 ∷ ask_disable ∷ round 9 ∷ ask_disable ∷ []

thread_entry-Idle_example :
    let (t, h) = thread_entry listed quiet 250 afternoon awaited [] in
    (thread_round listed quiet 250 400 t h).0.dev.fifo ≡ []
thread_entry-Idle_example =
    thread_entry-Idle listed 51 listed-IsFifo quiet 250 afternoon awaited [] 400
      (refl, inr (omega arith))
