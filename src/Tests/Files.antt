-- ===== src/Tests/Files.antt =====
-- Runs of the models of the files of sysfs: src/usb_hal/usb_hal_sysfs.c, src/drm/msdisp_drm_sysfs.c.
use ms912x.Base.{◌≡◌, inr, none, some, [], arith}
use ms912x.Base.Int.{pos}
use ms912x.Text.Fits.{joined, IsWhole}
use ms912x.Text.Reads.{numbers}
use ms912x.Hal.Sysfs.{frame_lines, frame_show, dev_lines, dev_show, custom_mode_show}
use ms912x.Hal.Sysfs.Fits.{stat_values, custom_lines, shows_lem}
use ms912x.Hal.Sysfs.Registers.{write_xdata_store, read_xdata_store, xdata_stores_lem}
use ms912x.Tests.Sim.{adapter, memory, serves, stores_writes}
use ms912x.Tests.Fixtures.{tuned}

shows_lem_example :
    IsWhole (frame_lines tuned.stat) (frame_show tuned)
    × (numbers none (joined (frame_lines tuned.stat)) ≡ stat_values tuned.stat)
    × IsWhole (dev_lines tuned) (dev_show tuned)
    × IsWhole (custom_lines tuned) (custom_mode_show tuned)
shows_lem_example = shows_lem tuned (omega arith) (ground arith)

xdata_stores_lem_example :
    let (wrote, h1) = write_xdata_store (adapter (λ a. 0)) (some (0x1f020, 0x155)) 12 [] in
    let (read, h2) = read_xdata_store (adapter (λ a. 0)) (inr 0xf020) 7 h1 in
    (wrote ≡ record { ret = pos 12; logged = some 0x55 })
    × (read ≡ record { ret = pos 7; logged = some 0x55 })
    × (memory (λ a. 0) h2 0xf020 ≡ 0x55)
xdata_stores_lem_example =
    xdata_stores_lem (serves (λ a. 0)) (stores_writes (λ a. 0)) 0x1f020 0x155 12 7 0xf020 []
