-- ===== src/Drm/Connectors/Cvbs.antt =====
-- src/drm/msdisp_drm_connector.c with ms9132_hal.c: the two modes of an analog port.
use ms912x.Base.{
  ℕ, ◌%◌, ◌^◌, ◌≡◌, refl, ap, subst, Bool, true, Option, none, some, List, [], ◌∷◌, arith, ◌==◌,
}
use ms912x.Base.Int.{pos}
use ms912x.Usb.{Kernel}
use ms912x.Device.Command.{port_cvbs_svideo}
use ms912x.Hal.Fifo.{Fifo}
use ms912x.Hal.Dev.{Dev, VideoMode}
use ms912x.Hal.Mode.{
  find_vic, get_mode_vic, video_mode_valid, check_mode_for_custom_mode, support_modes,
}
use ms912x.Drm.Cea.Types.{DisplayMode}
use ms912x.Drm.Mode.{cea_mode_for_vic, mode_from_cea_vic}
use ms912x.Drm.Pipelines.{Pipeline}
use ms912x.Drm.Funcs.{HalFuncs, mode_bad}
use ms912x.Drm.Glue.{hal_mode, mode_valid, get_custom_cea_vic}
use ms912x.Drm.Glue.Adapters.{Adapters, ms9132_hal_funcs}
use ms912x.Drm.Connectors.{modes_of, vics_of, add_modes_by_cea_vic, connector_mode_valid}

not_listed : (rate : ℕ) → get_mode_vic 720 576 rate ≡ none
unfolding get_mode_vic find_vic support_modes
not_listed rate = refl

no_custom :
    (d : Dev) (m : VideoMode)
    → find_vic m.width m.height m.rate d.custom_mode ≡ none
    → check_mode_for_custom_mode d m ≡ pos 1
unfolding check_mode_for_custom_mode
no_custom d m e = rw (e, check_mode_for_custom_mode) refl

mode_bad_lem :
    (d : Dev) (rate : ℕ)
    → find_vic 720 576 (rate % 2 ^ 16) d.custom_mode ≡ none
    → mode_valid d 720 576 rate ≡ mode_bad
unfolding mode_valid video_mode_valid
mode_bad_lem d rate e =
    simp (no_custom d (hal_mode 720 576 rate 0) e, not_listed (rate % 2 ^ 16 % 2 ^ 8)) refl

-- The modes 2 and 17 of the tables.
abbrev pub AreAnalog : List DisplayMode → Type 0
AreAnalog ms =
    (first : DisplayMode) × ((second : DisplayMode) × ((ms ≡ first ∷ (second ∷ []))
        × (cea_mode_for_vic 2 ≡ some first)
        × (cea_mode_for_vic 17 ≡ some second)))

analog_modes : AreAnalog (modes_of (λ vic. true) (2 ∷ (17 ∷ [])))
unfolding modes_of mode_from_cea_vic cea_mode_for_vic
analog_modes = (_, (_, (refl, refl, refl)))

module _ (k : Kernel) (f : Fifo) (super_speed : ℕ → Bool) (ms : ℕ) (a : Adapters) (hal : ℕ) where
  abbrev pub funcs : HalFuncs Adapters
  funcs = ms9132_hal_funcs k f super_speed ms

  cvbs_vics :
      (o : Option ℕ)
      → o ≡ some hal
      → (a.dev hal).port_type ≡ port_cvbs_svideo
      → vics_of funcs a o ≡ 2 ∷ (17 ∷ [])
  unfolding get_custom_cea_vic
  cvbs_vics o plugged port =
      let same : ((a.dev hal).port_type == port_cvbs_svideo) ≡ true = ground arith in
      rw (plugged, same) refl

  rejected :
      (vrefresh : DisplayMode → ℕ) (mode : DisplayMode)
      → cea_mode_for_vic 17 ≡ some mode
      → find_vic 720 576 (vrefresh mode % 2 ^ 16) (a.dev hal).custom_mode ≡ none
      → mode_valid (a.dev hal) mode.hdisplay mode.vdisplay (vrefresh mode) ≡ mode_bad
  unfolding cea_mode_for_vic
  rejected vrefresh mode e none' =
      let w : 720 ≡ mode.hdisplay =
        ap (λ (o : Option DisplayMode). elim o [ none ↦ 0 | some m ↦ m.hdisplay ]) e in
      let h : 576 ≡ mode.vdisplay =
        ap (λ (o : Option DisplayMode). elim o [ none ↦ 0 | some m ↦ m.vdisplay ]) e in
      subst (λ w. mode_valid (a.dev hal) w mode.vdisplay (vrefresh mode) ≡ mode_bad) w
        (subst (λ h. mode_valid (a.dev hal) 720 h (vrefresh mode) ≡ mode_bad) h
          (mode_bad_lem (a.dev hal) (vrefresh mode) none'))

  -- A connector whose adapter has the analog port offers the modes 2 and 17 of the tables. An adapter
  -- without a custom mode of 720 by 576, such as one that has only the mode which it gets when it is
  -- set up, accepts the second of them at no rate.
  pub analog_modes_lem :
      (p : Pipeline) (vrefresh : DisplayMode → ℕ) (mode : DisplayMode)
      → p.usb_hal ≡ some hal
      → (a.dev hal).port_type ≡ port_cvbs_svideo
      → find_vic 720 576 (vrefresh mode % 2 ^ 16) (a.dev hal).custom_mode ≡ none
      → cea_mode_for_vic 17 ≡ some mode
      → AreAnalog (add_modes_by_cea_vic funcs (λ vic. true) p a)
        × (connector_mode_valid funcs vrefresh p mode a ≡ mode_bad)
  unfolding add_modes_by_cea_vic connector_mode_valid
  analog_modes_lem p vrefresh mode plugged port none' e = (
    rw (cvbs_vics p.usb_hal plugged port) analog_modes,
    rw plugged (rejected vrefresh mode e none'),
  )
