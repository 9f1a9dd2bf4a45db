-- ===== src/Tests/Traffic.antt =====
-- Runs of the models of src/usb_hal and src/drm that join several parts, and of the dump of a picture.
use ms912x.Base.{
  ℕ, ◌+◌, ◌≡◌, refl, true, false, not, none, some, List, [], ◌∷◌, ◌++◌, arith, ◌==◌, take, drop,
  replicate,
}
use ms912x.Usb.{success}
use ms912x.Device.Xdata.{read_xdata_from, read_flash_from, read_flash}
use ms912x.Device.Xdata.Rounds.{read_loops_end}
use ms912x.Hal.Request.{Transfer}
use ms912x.Hal.Thread.{Thread, round, ask_disable, act}
use ms912x.Hal.Traffic.{acts, Reaches, fresh, next, run_all}
use ms912x.Hal.Traffic.Tracked.{IsTracked, Reaches-served}
use ms912x.Drm.Modeset.{InitAnswers, PipelineAnswers, modeset_init}
use ms912x.Drm.Modeset.Freed.{SetUp, modeset_init-SetUp}
use ms912x.Drm.Dump.{DumpRequest, dump_fb_store, save_buf_to_bmp}
use ms912x.Drm.Dump.Rows.{row_at, Says, save_buf_to_bmp_lem}
use ms912x.Drm.Dump.Name.{c_string, dump_fb_store_lem}
use ms912x.Tests.Sim.{memory}
use ms912x.Tests.Fixtures.{quiet, listed, listed-IsFifo, running, free_request}

-- Both requests are free, and an event waits.
abbrev idle : Thread
idle = record { dev = record running { request1 = free_request }; sema = 0; queued = [] }

abbrev transfer : ℕ → Transfer
transfer i = record { init = success; status = success; ms = 3; now = 910 }

abbrev sent_once : Thread
sent_once = (act listed quiet 250 (round 900) idle []).0

abbrev asked_once : Thread
asked_once = (act listed quiet 250 ask_disable sent_once []).0

reached : Reaches listed quiet 250 asked_once
reached =
    next sent_once asked_once
      (next idle sent_once (fresh idle refl refl refl) (acts idle (round 900) []))
      (acts sent_once ask_disable [])

Reaches-served_example :
    let (t', h') = run_all quiet transfer asked_once.queued asked_once [] in
    IsTracked asked_once
    × (t'.queued ≡ [])
    × (t'.dev.request0.done ≡ true)
    × (t'.dev.request1.done ≡ true)
Reaches-served_example =
    Reaches-served listed 51 listed-IsFifo quiet 250 asked_once transfer [] reached

abbrev made_well : InitAnswers
made_well = record { memory = true; init = success }

-- No memory for the CRTC of the second pipeline.
abbrev answers : ℕ → PipelineAnswers
answers i = record {
  crtc_memory = not (i == 1);
  primary = made_well;
  cursor = made_well;
  encoder = made_well;
  connector_memory = true;
}

modeset_init-SetUp_example : SetUp answers 0 3 [] (modeset_init answers 3)
modeset_init-SetUp_example = modeset_init-SetUp answers 3

abbrev dumped : List ℕ
dumped = replicate 24 5

save_buf_to_bmp_lem_example :
    (file : List ℕ) × (save_buf_to_bmp dumped 3 2 4 ≡ some file)
    × Says 3 2 4 file
    × (row_at 2 12 (drop 54 file) 1 ≡ take 12 (drop 12 dumped))
save_buf_to_bmp_lem_example =
    save_buf_to_bmp_lem dumped 3 2 4 1 (omega arith) (omega arith) (omega arith) (omega arith)
      (omega arith) (omega arith)

abbrev slash_x : List ℕ
slash_x = b'/' ∷ b'x' ∷ []

dump_fb_store_lem_example :
    ((r : DumpRequest) × ((dump_fb_store
            (slash_x ++ 10 ∷ [])
            (record { filename = replicate 256 0; flag = false })
          ≡ some r)
        × (r.flag ≡ true)
        × (c_string r.filename ≡ slash_x)))
    × ((r : DumpRequest) × ((dump_fb_store slash_x
              (record { filename = replicate 256 0; flag = false })
            ≡ some r)
          × (r.flag ≡ true)
          × (c_string r.filename ≡ slash_x ++ c_string (drop 2 (replicate 256 0)))))
dump_fb_store_lem_example =
    dump_fb_store_lem slash_x (replicate 256 0) false (omega arith) (omega arith) (
      ((λ e. omega (arith, e)), (λ e. omega (arith, e))),
      (((λ e. omega (arith, e)), (λ e. omega (arith, e))), tt),
    )

read_loops_end_example :
    (read_xdata_from (10 + 5) quiet 0 0 10 none [] ≡ read_xdata_from 10 quiet 0 0 10 none [])
    × (read_flash_from (10 + 5) quiet 0 0 10 none [] ≡ read_flash quiet 0 10)
read_loops_end_example = read_loops_end quiet 0 10 5
