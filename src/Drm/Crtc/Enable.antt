-- ===== src/Drm/Crtc/Enable.antt =====
-- src/drm/msdisp_drm_modeset.c: enabling a CRTC, and the mode that its pipeline keeps.
use ms912x.Base.{
  ℕ, zero, suc, ◌+◌, ◌<◌, ◌≡◌, refl, ap, ◌∙◌, true, false, Option, none, some, List, [], ◌∷◌, arith,
  leb, ◌==◌, if◌then◌else◌, get_elem?, set, get_elem?-set_self, get_elem?-bound,
}
use ms912x.Usb.{success}
use ms912x.Drm.Cea.Types.{DisplayMode}
use ms912x.Drm.Pipelines.{
  Pipeline, Crtc, DrmDevice, VblankEvent, registered, enable_call, register_usb_hal,
  unregister_usb_hal, max_pipeline_cnt,
}
use ms912x.Drm.Funcs.{HalFuncs}
use ms912x.Drm.Crtc.{
  CrtcState, Framebuffer, hand_over, given, then_enable, call_enable, get_pipeline_by_crtc,
  by_crtc_from, update_event, atomic_enable, enable_pipeline, enabled_in,
}
use ms912x.Drm.Crtc.Events.{hand_over_lem}

by_crtc_lem :
    (ps : List Pipeline) (i j crtc : ℕ) (p q : Pipeline)
    → get_elem? ps i ≡ some p
    → q.crtc ≡ p.crtc
    → by_crtc_from j crtc (set ps i q) ≡ by_crtc_from j crtc ps
unfolding by_crtc_from
by_crtc_lem [] i j crtc p q at_ same = refl
by_crtc_lem (x ∷ ps) zero j crtc p q at_ same =
    let eq : p ≡ x = cc in
    let id : q.crtc.id ≡ x.crtc.id =
      ap (λ (c : Crtc). c.id) same ∙ ap (λ (c : Pipeline). c.crtc.id) eq in
    rw id refl
by_crtc_lem (x ∷ ps) (suc i) j crtc p q at_ same =
    ap (λ r. if x.crtc.id == crtc then some j else r) (by_crtc_lem ps i (j + 1) crtc p q at_ same)

-- The pipeline is enabled, in a mode and a format, and the next update sends the whole picture.
pub record IsKept (mode : DisplayMode) (rate format : ℕ) (p : Pipeline) : Type 0 where
  pub status : p.drm_status ≡ true
  pub width : p.drm_width ≡ mode.hdisplay
  pub height : p.drm_height ≡ mode.vdisplay
  pub rate_ : p.drm_rate ≡ rate
  pub format_ : p.drm_fb_format ≡ format
  pub refresh : p.needs_full_refresh ≡ true

-- The pipeline is enabled, in a mode and a format, whether or not it has sent a picture since.
pub record RunsIn (mode : DisplayMode) (rate format : ℕ) (p : Pipeline) : Type 0 where
  pub status : p.drm_status ≡ true
  pub width : p.drm_width ≡ mode.hdisplay
  pub height : p.drm_height ≡ mode.vdisplay
  pub rate_ : p.drm_rate ≡ rate
  pub format_ : p.drm_fb_format ≡ format

module _ {S : Type 0} (funcs : HalFuncs S) where
  enable_pipeline_lem :
      (d : DrmDevice) (o : Option ℕ) (mode : DisplayMode) (rate format : ℕ) (s : S) {i hal : ℕ}
      {p : Pipeline}
      → o ≡ some i
      → get_elem? d.pipeline i ≡ some p
      → p.usb_hal ≡ some hal
      → enable_pipeline funcs d o mode rate format s
        ≡ some (
          record d { pipeline = set d.pipeline i (enabled_in mode rate format p) },
          (funcs.enable hal mode.hdisplay mode.vdisplay rate format s).1,
        )
  enable_pipeline_lem d o mode rate format s {i = i} {p = p} found at_ plugged =
      rw (found, at_) (ap (λ h. some (call_enable funcs d i p mode rate format s h)) plugged)

  -- The result of an enable through the adapter `hal` of pipeline `i`.
  abbrev pub Enables : DisplayMode → ℕ → ℕ → ℕ → ℕ → S → Option (DrmDevice × CrtcState × S) → Type 0
  Enables mode rate format i hal s o =
      (d : DrmDevice) × ((c : CrtcState) × ((o
            ≡ some (d, c, (funcs.enable hal mode.hdisplay mode.vdisplay rate format s).1))
          × ((c.event ≡ none)
              × ((p : Pipeline) × ((get_elem? d.pipeline i ≡ some p)
                    × IsKept mode rate format p)))))

  module _ (vrefresh : DisplayMode → ℕ) (crtc index format i hal : ℕ) (s : S) where
    then_enable_lem :
        (d : DrmDevice) (c : CrtcState) (p : Pipeline)
        → get_pipeline_by_crtc d crtc ≡ some i
        → get_elem? d.pipeline i ≡ some p
        → p.usb_hal ≡ some hal
        → c.event ≡ none
        → Enables c.mode
            (vrefresh c.mode)
            format
            i
            hal
            s
            (then_enable funcs vrefresh crtc format s (some (d, c)))
    then_enable_lem d c p found at_ plugged idle =
        let p' : Pipeline = enabled_in c.mode (vrefresh c.mode) format p in
        (
          record d { pipeline = set d.pipeline i p' },
          (
            c,
            (
              rw
                  (enable_pipeline_lem d (get_pipeline_by_crtc d crtc) c.mode (vrefresh c.mode)
                    format s found at_ plugged)
                  refl,
              (
                idle,
                (
                  p',
                  (
                    get_elem?-set_self d.pipeline i p' (get_elem?-bound d.pipeline i at_),
                    record {
                      status = refl;
                      width = refl;
                      height = refl;
                      rate_ = refl;
                      format_ = refl;
                      refresh = refl;
                    },
                  ),
                ),
              ),
            ),
          ),
        )

    module _ (d : DrmDevice) (c : CrtcState) (p : Pipeline)
        (found : get_pipeline_by_crtc d crtc ≡ some i) (at_ : get_elem? d.pipeline i ≡ some p)
        (plugged : p.usb_hal ≡ some hal) where
      handed_over :
          (w : Option VblankEvent)
          → c.event ≡ w
          → Enables c.mode (vrefresh c.mode) format i hal s (
              then_enable funcs vrefresh crtc format s
                (hand_over d (get_pipeline_by_crtc d crtc) index c w))
      unfolding get_pipeline_by_crtc
      handed_over none idle = then_enable_lem d c p found at_ plugged idle
      handed_over (some e) event =
          let p' : Pipeline = given e index p in
          let d' : DrmDevice = record d { pipeline = set d.pipeline i p' } in
          rw (hand_over_lem d index c _ (some e) found at_ refl) (
            then_enable_lem d' (record c { event = none }) p'
              (by_crtc_lem d.pipeline i 0 crtc p p' at_ refl ∙ found)
              (get_elem?-set_self d.pipeline i p' (get_elem?-bound d.pipeline i at_)) plugged refl)

      -- Enabling a CRTC whose pipeline has an adapter calls the adapter once, with the mode's
      -- picture, its rate and the framebuffer's format, hands a pending event over, and keeps that
      -- mode in the pipeline, whose next update sends the whole picture.
      pub atomic_enable-IsKept :
          (fb : Framebuffer)
          → fb.format ≡ format
          → Enables c.mode
              (vrefresh c.mode)
              format
              i
              hal
              s
              (atomic_enable funcs vrefresh d crtc index (some fb) c s)
      unfolding atomic_enable update_event
      atomic_enable-IsKept fb same = rw same (handed_over c.event refl)

enable_call-RunsIn :
    (mode : DisplayMode) (rate format : ℕ) (p : Pipeline)
    → RunsIn mode rate format p
    → enable_call p ≡ some (mode.hdisplay, mode.vdisplay, rate, format)
enable_call-RunsIn mode rate format p runs =
    simp (runs.status, runs.width, runs.height, runs.rate_, runs.format_)

-- For a pipeline below 3 that is enabled in a mode with a rate and a pixel format, whether or not it
-- has sent a picture since: unregistering its adapter and registering another in its place both
-- succeed, and registering calls the new adapter's enable with the same width, height, rate and pixel
-- format. What that call returns is not looked at.
pub register-unregister :
    (d : DrmDevice) (i other rate format : ℕ) (mode : DisplayMode) (p : Pipeline)
    → i < 3
    → get_elem? d.pipeline i ≡ some p
    → RunsIn mode rate format p
    → (d' : DrmDevice) × ((d'' : DrmDevice) × ((unregister_usb_hal d i ≡ some (success, d'))
          × (register_usb_hal d' i other
              ≡ some (success, d'', some (mode.hdisplay, mode.vdisplay, rate, format)))))
unfolding register_usb_hal unregister_usb_hal
register-unregister d i other rate format mode p lt at_ runs =
    let small : leb max_pipeline_cnt i ≡ false = ground arith in
    let p' : Pipeline = record p { usb_hal = none; reg_flag = false } in
    let d' : DrmDevice = record d { pipeline = set d.pipeline i p' } in
    let at' : get_elem? d'.pipeline i ≡ some p' =
      get_elem?-set_self d.pipeline i p' (get_elem?-bound d.pipeline i at_) in
    let d'' : DrmDevice = record d' { pipeline = set d'.pipeline i (registered p' other) } in
    (
      d',
      (
        d'',
        (
          simp (small, at_),
          simp (small, at')
              (ap (λ call. some (success, d'', call)) (enable_call-RunsIn mode rate format p runs)),
        ),
      ),
    )
