-- ===== src/Drm/Crtc/Accepted.antt =====
-- src/drm: a mode that the connector accepts reaches the adapter when DRM enables it.
use ms912x.Base.{ℕ, ◌^◌, ◌<◌, ◌≡◌, refl, subst, Bool, true, some, get_elem?}
use ms912x.Usb.{Kernel}
use ms912x.Hal.Fifo.{Fifo}
use ms912x.Hal.Mode.{is_support_fourcc, enabled_with, FormatDesc}
use ms912x.Drm.Cea.Types.{DisplayMode}
use ms912x.Drm.Pipelines.{Pipeline, DrmDevice}
use ms912x.Drm.Funcs.{HalFuncs, mode_ok}
use ms912x.Drm.Glue.{hal_mode, hal_enable_accepts}
use ms912x.Drm.Glue.Adapters.{Adapters, with_dev, ms9132_hal_funcs}
use ms912x.Drm.Connectors.{connector_mode_valid, valid_for}
use ms912x.Drm.Crtc.{CrtcState, Framebuffer, get_pipeline_by_crtc, atomic_enable}
use ms912x.Drm.Crtc.Enable.{IsKept, atomic_enable-IsKept}

module _ (k : Kernel) (f : Fifo) (super_speed : ℕ → Bool) (ms : ℕ) (vrefresh : DisplayMode → ℕ)
    (d : DrmDevice) (crtc index i hal : ℕ) (p : Pipeline) (c : CrtcState) (fb : Framebuffer)
    (a : Adapters) where
  abbrev pub funcs : HalFuncs Adapters
  funcs = ms9132_hal_funcs k f super_speed ms

  -- If the connector of a pipeline with an adapter accepts the mode of a CRTC, and the pixel format is
  -- known, enabling the CRTC stores the mode in that adapter, with a vic of the tables, and queues
  -- the event for it; no other adapter changes, and the pipeline keeps the mode.
  pub atomic_enable-mode_valid :
      get_pipeline_by_crtc d crtc ≡ some i
      → get_elem? d.pipeline i ≡ some p
      → p.usb_hal ≡ some hal
      → vrefresh c.mode < 2 ^ 8
      → connector_mode_valid funcs vrefresh p c.mode a ≡ mode_ok
      → is_support_fourcc fb.format ≡ true
      → (vic : ℕ) × ((desc : FormatDesc) × ((d' : DrmDevice) × ((c' : CrtcState) × ((p' : Pipeline)
                × ((atomic_enable funcs vrefresh d crtc index (some fb) c a
                      ≡ some (
                        d',
                        c',
                        with_dev a hal (
                            enabled_with f
                              (a.dev hal)
                              (hal_mode c.mode.hdisplay c.mode.vdisplay (vrefresh c.mode) vic)
                              desc),
                      ))
                    × (get_elem? d'.pipeline i ≡ some p')
                    × IsKept c.mode (vrefresh c.mode) fb.format p')))))
  unfolding connector_mode_valid
  atomic_enable-mode_valid found at_ plugged small ok known =
      let accepted =
        subst (λ h. valid_for funcs h c.mode.hdisplay c.mode.vdisplay (vrefresh c.mode) a ≡ mode_ok)
          plugged ok in
      let (vic, (desc, e)) =
        hal_enable_accepts f (a.dev hal) c.mode.hdisplay c.mode.vdisplay (vrefresh c.mode) fb.format
          small accepted known in
      let (d', (c', (eq, (idle, (p', (at', kept)))))) =
        atomic_enable-IsKept funcs vrefresh crtc index fb.format i hal a d c p found at_ plugged fb
          refl in
      (vic, (desc, (d', (c', (p', (rw e at eq, at', kept))))))
