-- ===== src/Drm/Plane/Shown.antt =====
-- src/drm/msdisp_drm_modeset.c, src/usb_hal: from DRM's update of a plane to the bytes that the chip reads.
use ms912x.Base.{
  ℕ, suc, ◌+◌, ◌*◌, ◌/◌, ◌≤◌, ◌<◌, ◌≡◌, refl, sym, ap, ◌∙◌, Bool, true, false, Option, none, some,
  List, [], ◌∷◌, arith, ◌==◌, length,
}
use ms912x.Base.Int.{pos_part}
use ms912x.Usb.{Kernel}
use ms912x.Hal.Dev.{Dev}
use ms912x.Hal.Fifo.{Fifo}
use ms912x.Hal.Frame.{Pixel, encode_pair}
use ms912x.Hal.Frame.Safety.{FitsCursor}
use ms912x.Hal.Frame.Pixels.{shown}
use ms912x.Hal.Frame.Pixels.Received.{received}
use ms912x.Hal.Request.{Sent, slot, send_xrgb8888_rect}
use ms912x.Hal.Request.Picture.{send_xrgb8888_rect-shown}
use ms912x.Drm.Pipelines.{Pipeline}
use ms912x.Drm.Funcs.{HalFuncs, Rect}
use ms912x.Drm.Glue.Adapters.{Adapters, with_dev, queued, after_send, ms9132_hal_funcs}
use ms912x.Drm.Crtc.{Framebuffer}
use ms912x.Drm.Plane.{
  PlaneState, Dump, dump, Update, damage_of, rect_of, count_damage, finish, from_fb,
  update_pipeline,
}

with_dev_here : (a : Adapters) (hal : ℕ) (d : Dev) → (with_dev a hal d).dev hal ≡ d
with_dev_here a hal d = let z : (hal == hal) ≡ true = ground arith in rw z refl

queued-dev : (b : Adapters) (hal : ℕ) (o : Option ℕ) → (queued b hal o).dev hal ≡ b.dev hal
queued-dev b hal none = refl
queued-dev b hal (some i) = refl

queued-work :
    (b : Adapters) (hal i : ℕ) (o : Option ℕ)
    → (queued b hal o).work ≡ (hal, i) ∷ b.work
    → o ≡ some i
queued-work b hal i none e =
    absurd (let n : length b.work ≡ suc (length b.work) = ap length e in omega (arith, n))
queued-work b hal i (some j) e =
    ap (λ (w : List (ℕ × ℕ)). elim w [ [] ↦ none | ◌∷◌ x xs ↦ some x.1 ]) e

-- The update that queued a request had it from the adapter's transfer.
sent_lem :
    (funcs : HalFuncs Adapters) (a a' : Adapters) (hal i : ℕ) (p p' : Pipeline)
    (out out' : Option Dump) (o : Option Sent)
    → finish funcs p out (after_send a hal o) ≡ some (p', a', out')
    → a'.work ≡ (hal, i) ∷ a.work
    → (s : Sent) × ((o ≡ some s) × (s.queued ≡ some i) × (a'.dev hal ≡ s.dev))
sent_lem funcs a a' hal i p p' out out' none e w = cc
sent_lem funcs a a' hal i p p' out out' (some s) e w =
    let b = with_dev a hal s.dev in
    let same : queued b hal s.queued ≡ a' =
      ap (λ (u : Option (Update Adapters)). elim u [ none ↦ a | some v ↦ v.1 ]) e in
    let work : (queued b hal s.queued).work ≡ (hal, i) ∷ b.work =
      ap (λ (c : Adapters). c.work) same ∙ w in
    let dev : a'.dev hal ≡ s.dev =
      sym (ap (λ (c : Adapters). c.dev hal) same)
      ∙ queued-dev b hal s.queued
      ∙ with_dev_here a hal s.dev in
    (s, (refl, queued-work b hal i s.queued work, dev))

module _ (k : Kernel) (f : Fifo) (super_speed : ℕ → Bool) (ms : ℕ) (a : Adapters) (hal : ℕ)
    (fb : Framebuffer) (src : List ℕ) where
  abbrev funcs : HalFuncs Adapters
  funcs = ms9132_hal_funcs k f super_speed ms

  abbrev send_at : Rect → Option Sent
  send_at r = send_xrgb8888_rect ms (a.dev hal) src fb.width fb.height fb.pitch r.x1 r.y1 r.x2 r.y2

  -- With the framebuffer, its bytes and the adapter at hand, an update is a transfer.
  update_lem :
      (p : Pipeline) (state : PlaneState) (r : Rect) (shown_fb : Option Framebuffer)
      → shown_fb ≡ some fb
      → state.shadow ≡ some src
      → p.usb_hal ≡ some hal
      → from_fb funcs p state r a shown_fb
        ≡ finish funcs
            (record p { dump_fb_flag = false })
            (dump p.dump_fb_flag src fb)
            (after_send a hal (send_at r))
  update_lem p state r shown_fb e mapped plugged = rw (e, mapped, plugged) refl

  -- An update of the primary plane with an adapter, whose cursor's box lies in its buffer, and a
  -- framebuffer with all its rows mapped: if it queues a request, then each pixel of the part that is
  -- sent, the damage that DRM reports or the whole where it is not known or a refresh is due, stands in
  -- the request's update where its header says. With its neighbour it is encoded from the
  -- framebuffer's pixels at its place, with the cursor over them. The part ends before column 4093
  -- and row 4095.
  pub update_pipeline-shown :
      (damage_merged : PlaneState → Option Rect) (p p' : Pipeline) (old : Option PlaneState)
      (state : PlaneState) (a' : Adapters) (out : Option Dump) (x y i : ℕ)
      → let r = rect_of (some fb) (damage_of p.needs_full_refresh damage_merged old) in
        FitsCursor (a.dev hal).cursor
        → fb.height * fb.pitch ≤ length src
        → state.fb ≡ some fb
        → state.shadow ≡ some src
        → p.usb_hal ≡ some hal
        → r.x2 ≤ 4092
        → r.y2 ≤ 4094
        → pos_part r.x1 ≤ x
        → x < r.x2
        → x < fb.width
        → pos_part r.y1 ≤ y
        → y < r.y2
        → y < fb.height
        → update_pipeline funcs damage_merged p old state a ≡ some (p', a', out)
        → a'.work ≡ (hal, i) ∷ a.work
        → let cur = (a.dev hal).cursor in
          (u : Pixel) × ((v : Pixel) × ((received (slot (a'.dev hal) i).transfer x y
                ≡ some (encode_pair u v))
              × (shown cur src fb.pitch (2 * (x / 2)) y ≡ some u)
              × (shown cur src fb.pitch (2 * (x / 2) + 1) y ≡ some v)))
  unfolding update_pipeline
  update_pipeline-shown damage_merged p p' old state a' out x y i fits rows pictured mapped plugged
        wide tall left right inside top bottom low e work =
      let m = damage_of p.needs_full_refresh damage_merged old in
      let r = rect_of (some fb) m in
      let p1 = count_damage m p in
      let rect : rect_of state.fb m ≡ r = ap (λ (o : Option Framebuffer). rect_of o m) pictured in
      let sent = update_lem p1 state (rect_of state.fb m) state.fb pictured mapped plugged in
      let run = sym sent ∙ e in
      let made = dump p1.dump_fb_flag src fb in
      let (s, (es, first, dev)) =
        sent_lem funcs a a' hal i (record p1 { dump_fb_flag = false }) p' made out
          (send_at (rect_of state.fb m)) run work in
      let es' = ap send_at (sym rect) ∙ es in
      let (u, (v, (there, eu, ev))) =
        send_xrgb8888_rect-shown ms (a.dev hal) src fb.width fb.height fb.pitch r.x1 r.y1 r.x2 r.y2
          x y s i fits rows wide tall left right inside top bottom low es' first in
      (u, (v, (ap (λ (d : Dev). received (slot d i).transfer x y) dev ∙ there, eu, ev)))
