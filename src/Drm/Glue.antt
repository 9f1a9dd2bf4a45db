-- ===== src/Drm/Glue.antt =====
-- src/drm/ms9132_hal.c: the functions through which DRM drives an adapter.
pub mod Adapters
use ms912x.Base.{
  ℕ, zero, suc, ◌%◌, ◌^◌, ◌<◌, ◌≡◌, refl, subst, true, not, none, some, List, [], ◌∷◌, arith, ltb,
  ◌==◌, if◌then◌else◌,
}
use ms912x.Base.Int.{ℤ, pos, negsuc, nonzero}
use ms912x.Usb.{success, e_inval, e_range, minus_one}
use ms912x.Device.Command.{port_cvbs_svideo}
use ms912x.Drm.Funcs.{ModeStatus, mode_ok, mode_bad}
use ms912x.Hal.Dev.{Dev, VideoMode}
use ms912x.Hal.Fifo.{Fifo}
use ms912x.Hal.Mode.{video_mode_valid, is_support_fourcc, get_vic, enable, enabled_with, FormatDesc}
use ms912x.Hal.Mode.Laws.{
  Supported, video_mode_valid_iff, get_vic_total, enable_accepts, format_known,
}

-- `struct usb_hal_video_mode` from three numbers of type `int`.
abbrev pub hal_mode : ℕ → ℕ → ℕ → ℕ → VideoMode
hal_mode width height rate vic = record {
  width = width % 2 ^ 16;
  height = height % 2 ^ 16;
  rate = rate % 2 ^ 16;
  vic = vic;
}

unfoldable pub mode_valid : Dev → ℕ → ℕ → ℕ → ModeStatus
mode_valid d width height rate =
    if nonzero (video_mode_valid d (hal_mode width height rate 0)) then mode_bad else mode_ok

-- `ms9132_hal_enable`. Without a vic the code of `usb_hal_get_vic` is -1.
pub hal_enable : Fifo → Dev → ℕ → ℕ → ℕ → ℕ → ℤ × Dev
hal_enable f d width height rate fourcc =
    if nonzero (video_mode_valid d (hal_mode width height rate 0))
    then (video_mode_valid d (hal_mode width height rate 0), d)
    else if not (is_support_fourcc fourcc)
    then (e_inval, d)
    else elim (get_vic d (width % 2 ^ 16) (height % 2 ^ 16) (rate % 2 ^ 8)) [
      | none ↦ (minus_one, d)
      | some vic ↦ enable f d (hal_mode width height rate vic) fourcc
    ]

-- The code, and what is written to `buf`, whose length is `*cnt`.
unfoldable pub get_custom_cea_vic : Dev → ℕ → ℤ × List ℕ
get_custom_cea_vic d size =
    if d.port_type == port_cvbs_svideo
    then (if ltb size 2 then (e_range, []) else (success, 2 ∷ 17 ∷ []))
    else (success, [])

valid_of : (z : ℤ) → (if nonzero z then mode_bad else mode_ok) ≡ mode_ok → z ≡ success
valid_of (pos zero) e = refl
valid_of (pos (suc n)) e = absurd (ground arith)
valid_of (negsuc n) e = cc

-- The vic of a mode plays no part in its validity.
valid_vic :
    (d : Dev) (m : VideoMode) (vic : ℕ)
    → video_mode_valid d m ≡ success
    → video_mode_valid d (record m { vic = vic }) ≡ success
valid_vic d m vic e =
    (video_mode_valid_iff d (record m { vic = vic })).1 ((video_mode_valid_iff d m).0 e)

-- A supported mode is accepted.
pub mode_valid-Supported :
    (d : Dev) (width height rate : ℕ)
    → Supported d (hal_mode width height rate 0)
    → mode_valid d width height rate ≡ mode_ok
unfolding mode_valid
mode_valid-Supported d width height rate s =
    rw ((video_mode_valid_iff d (hal_mode width height rate 0)).1 s) refl

-- DRM's contract: a mode that `mode_valid` accepts can be enabled. With a known pixel format the code is 0, the mode is
-- stored with a vic of the tables, and its event is queued.
pub hal_enable_accepts :
    (f : Fifo) (d : Dev) (width height rate fourcc : ℕ)
    → rate < 2 ^ 8
    → mode_valid d width height rate ≡ mode_ok
    → is_support_fourcc fourcc ≡ true
    → (vic : ℕ) × ((desc : FormatDesc) × (hal_enable f d width height rate fourcc
          ≡ (success, enabled_with f d (hal_mode width height rate vic) desc)))
unfolding hal_enable mode_valid
hal_enable_accepts f d width height rate fourcc lt ok known =
    let zero_ : video_mode_valid d (hal_mode width height rate 0) ≡ success =
      valid_of (video_mode_valid d (hal_mode width height rate 0)) ok in
    let same : rate % 2 ^ 16 ≡ rate % 2 ^ 8 = omega arith in
    let (vic, found) = get_vic_total d (hal_mode width height rate 0) zero_ (omega arith) in
    let (desc, e) = format_known fourcc known in
    let at_ : get_vic d (width % 2 ^ 16) (height % 2 ^ 16) (rate % 2 ^ 8) ≡ some vic =
      subst (λ r. get_vic d (width % 2 ^ 16) (height % 2 ^ 16) r ≡ some vic) same found in
    let valid' : video_mode_valid d (hal_mode width height rate vic) ≡ success =
      valid_vic d (hal_mode width height rate 0) vic zero_ in
    (
      vic,
      (
        desc,
        simp (zero_, known, at_)
            (enable_accepts f d (hal_mode width height rate vic) fourcc desc valid' e),
      ),
    )
