-- ===== src/Drm/Plane/Dropped.antt =====
-- src/drm/msdisp_drm_modeset.c with src/usb_hal: a refresh that a busy adapter drops.
use ms912x.Base.{
  ℕ, ◌*◌, ◌%◌, ◌≤◌, ◌<◌, ◌≡◌, refl, sym, subst, Bool, true, false, Option, some, List,
}
use ms912x.Usb.{Kernel}
use ms912x.Hal.Fifo.{Fifo}
use ms912x.Hal.Request.{busy}
use ms912x.Hal.Request.Busy.{IsBusy, send-IsBusy}
use ms912x.Drm.Pipelines.{Pipeline}
use ms912x.Drm.Funcs.{HalFuncs, Rect}
use ms912x.Drm.Glue.Adapters.{Adapters, with_dev, ms9132_hal_funcs}
use ms912x.Drm.Crtc.{Framebuffer}
use ms912x.Drm.Plane.{
  PlaneState, Update, Dump, dump, full, send_to, from_fb, count_damage, needs_refresh,
  update_pipeline, damage_of, rect_of,
}

-- Neither side is 0, the width is even and at most 4092, the height at most 4094, and a row holds the
-- pixels of the width.
pub record IsShown (fb : Framebuffer) : Type 0 where
  pub width : (0 < fb.width) × (fb.width ≤ 4092) × (fb.width % 2 ≡ 0)
  pub height : (0 < fb.height) × (fb.height ≤ 4094)
  pub pitch : fb.width * 4 ≤ fb.pitch

-- The refresh is over, and no request is queued.
abbrev pub Dropped : Adapters → Option (Update Adapters) → Type 0
Dropped a o =
    (p : Pipeline) × ((a' : Adapters) × ((out : Option Dump) × ((o ≡ some (p, a', out))
          × (p.needs_full_refresh ≡ false)
          × (a'.work ≡ a.work))))

module _ (k : Kernel) (f : Fifo) (super_speed : ℕ → Bool) (ms : ℕ) (a : Adapters) (hal : ℕ) where
  abbrev pub funcs : HalFuncs Adapters
  funcs = ms9132_hal_funcs k f super_speed ms

  module _ (fb : Framebuffer) (src : List ℕ) (b : IsBusy (a.dev hal) fb.width fb.height)
      (v : IsShown fb) where
    send-Dropped :
        (p : Pipeline) (made : Option Dump) (o : Option ℕ)
        → o ≡ some hal
        → Dropped a (send_to funcs p fb (full (some fb)) src a made o)
    send-Dropped p made o plugged =
        let e =
          send-IsBusy ms (a.dev hal) src fb.width fb.height fb.pitch b v.width.0 v.width.1 v.width.2
            v.height.0 v.height.1 v.pitch in
        rw (plugged, e)
          (
            record p { needs_full_refresh = false },
            (with_dev a hal (busy (a.dev hal) false).dev, (made, (refl, refl, refl))),
          )

    fb-Dropped :
        (p : Pipeline) (state : PlaneState) (shown : Option Framebuffer)
        → shown ≡ some fb
        → state.shadow ≡ some src
        → p.usb_hal ≡ some hal
        → Dropped a (from_fb funcs p state (full shown) a shown)
    fb-Dropped p state shown e mapped plugged =
        rw (e, mapped)
          (send-Dropped (record p { dump_fb_flag = false }) (dump p.dump_fb_flag src fb) p.usb_hal
            plugged)

    -- For a mapped framebuffer whose sides are not 0, whose width is even and at most 4092, whose height
    -- is at most 4094, and whose pitch is four bytes a pixel of the width or more: where a refresh of the
    -- whole picture is due, but the pipeline's adapter is enabled in this size, has shown a first
    -- picture, and both its requests are in use, an update returns and ends the refresh although the
    -- adapter drops the picture and queues nothing.
    pub update_pipeline-IsBusy :
        (damage_merged : PlaneState → Option Rect) (p : Pipeline) (old : Option PlaneState)
        (state : PlaneState)
        → p.needs_full_refresh ≡ true
        → state.fb ≡ some fb
        → state.shadow ≡ some src
        → p.usb_hal ≡ some hal
        → Dropped a (update_pipeline funcs damage_merged p old state a)
    unfolding update_pipeline
    update_pipeline-IsBusy damage_merged p old state due shown mapped plugged =
        subst
          (λ b.
            let m = damage_of b damage_merged old in
            Dropped a (from_fb funcs (count_damage m p) state (rect_of state.fb m) a state.fb))
          (sym due) (fb-Dropped (count_damage needs_refresh p) state state.fb shown mapped plugged)
