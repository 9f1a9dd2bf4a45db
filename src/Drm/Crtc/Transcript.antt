-- ===== src/Drm/Crtc/Transcript.antt =====
-- src/drm, src/usb_hal: from DRM's request for a mode to the calls that the chip sees.
use ms912x.Base.{ℕ, ◌≡◌, Bool, some}
use ms912x.Usb.{Kernel, History}
use ms912x.Device.Event.Script.{stop_transcript, setup_transcript, start_transcript}
use ms912x.Hal.Dev.{Dev, DevState}
use ms912x.Hal.Fifo.{Fifo}
use ms912x.Hal.Mode.{enable_event, color_out_for, FormatDesc}
use ms912x.Hal.Machine.{drain}
use ms912x.Drm.Cea.Types.{DisplayMode}
use ms912x.Drm.Pipelines.{Pipeline, DrmDevice}
use ms912x.Drm.Glue.{hal_mode}
use ms912x.Drm.Glue.Adapters.{Adapters, ms9132_hal_funcs}
use ms912x.Drm.Crtc.{CrtcState, Framebuffer, atomic_enable}

module _ (k : Kernel) (mem : History → ℕ → ℕ) (f : Fifo) (cap : ℕ) (super_speed : ℕ → Bool) (ms : ℕ)
    (vrefresh : DisplayMode → ℕ) (d : DrmDevice) (crtc index i hal : ℕ) (p : Pipeline)
    (c : CrtcState) (fb : Framebuffer) (a : Adapters) where
  -- The chip is enabled in the CRTC's mode.
  abbrev pub Shown : Type 0
  Shown =
      (vic : ℕ) × ((desc : FormatDesc) × ((d' : DrmDevice) × ((c' : CrtcState) × ((a' : Adapters)
              × ((atomic_enable (ms9132_hal_funcs k f super_speed ms) vrefresh d crtc index
                      (some fb) c a
                    ≡ some (d', c', a'))
                  × (let m = hal_mode c.mode.hdisplay c.mode.vdisplay (vrefresh c.mode) vic in
                      let dev = a.dev hal in
                      let event =
                        enable_event (record dev { color_out = color_out_for desc; vpack_in = 2 })
                          m in
                      let (dev', h') = drain f k (a'.dev hal) a.history in
                      (dev'.state ≡ DevState.enabled)
                      × (dev'.mode ≡ m)
                      × (h'
                          ≡ start_transcript mem dev.chip_id dev.port_type (
                              setup_transcript event
                                (stop_transcript mem dev.chip_id dev.port_type a.history)))))))))
