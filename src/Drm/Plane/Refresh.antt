-- ===== src/Drm/Plane/Refresh.antt =====
-- src/drm/msdisp_drm_modeset.c: when the refresh of the whole picture ends.
use ms912x.Base.{
  ℕ, zero, suc, ◌≡◌, refl, sym, ap, ◌∙◌, subst, inl, inr, true, false, Option, none, some, List,
  arith, Bool-cases,
}
use ms912x.Base.Int.{ℤ, pos, negsuc, nonzero}
use ms912x.Usb.{success}
use ms912x.Drm.Pipelines.{Pipeline}
use ms912x.Drm.Funcs.{HalFuncs, Rect}
use ms912x.Drm.Crtc.{Framebuffer}
use ms912x.Drm.Plane.{
  PlaneState, full, damage_of, rect_of, count_damage, count_no_fb, count_vmap_null,
  count_no_usb_hal, Dump, dump, after_damage, Update, handle_damage, finish, send_to, from_shadow,
  from_fb, update_pipeline,
}

zero_code : (z : ℤ) → nonzero z ≡ false → z ≡ success
zero_code (pos zero) e = refl
zero_code (pos (suc n)) e = absurd (ground arith)
zero_code (negsuc n) e = cc

-- The update of `p` leaves another pipeline, whose refresh is over although that of `p` was not.
abbrev Ends : {S : Type 0} → Pipeline → Pipeline → S → Option Dump → Option (Update S) → Type 0
Ends p p' s' out o =
    (o ≡ some (p', s', out)) × (p.needs_full_refresh ≡ true) × (p'.needs_full_refresh ≡ false)

still_due :
    {S : Type 0} (p q p' : Pipeline) (s s' : S) (out out' : Option Dump)
    → q.needs_full_refresh ≡ p.needs_full_refresh
    → Ends p p' s' out (some (q, s, out'))
    → ⊥
still_due p q p' s s' out out' same (e, due, over) =
    let eq : q ≡ p' = ap (λ (o : Option (Update _)). elim o [ none ↦ q | some u ↦ u.0 ]) e in
    let contra : true ≡ false =
      sym due ∙ sym same ∙ ap (λ (x : Pipeline). x.needs_full_refresh) eq ∙ over in
    cc

module _ {S : Type 0} (funcs : HalFuncs S) (p' : Pipeline) (s s' : S) (out : Option Dump) where
  finish-Ends :
      (p : Pipeline) (made : Option Dump) (o : Option (ℤ × S))
      → Ends p p' s' out (finish funcs p made o)
      → o ≡ some (success, s')
  finish-Ends p made none h = let e = h.0 in cc
  finish-Ends p made (some (rtn, t)) h = elim (Bool-cases (nonzero rtn)) [
    | inl bad ↦ absurd (still_due p (after_damage rtn p) p' t s' out made (rw bad refl) h)
    | inr good ↦
        let z : rtn ≡ success = zero_code rtn good in
        let t_eq : t ≡ s' =
          ap (λ (o : Option (Update S)). elim o [ none ↦ t | some u ↦ u.1 ]) h.0 in
        rw (z, t_eq) refl
  ]

  -- A picture was sent, from the framebuffer, whole.
  abbrev pub SentWhole : Option Framebuffer → Option (List ℕ) → Option ℕ → Rect → Type 0
  SentWhole fb shadow hal r =
      (f : Framebuffer) × ((src : List ℕ) × ((h : ℕ) × ((fb ≡ some f)
            × ((shadow ≡ some src)
                × ((hal ≡ some h) × (handle_damage funcs h f r src s ≡ some (success, s')))))))

  send-Ends :
      (p : Pipeline) (fb : Framebuffer) (r : Rect) (src : List ℕ) (made : Option Dump)
      (hal : Option ℕ)
      → Ends p p' s' out (send_to funcs p fb r src s made hal)
      → SentWhole (some fb) (some src) hal r
  send-Ends p fb r src made none h =
      absurd (still_due p (count_no_usb_hal p) p' s s' out made refl h)
  send-Ends p fb r src made (some hal) h =
      let sent = finish-Ends p made (handle_damage funcs hal fb r src s) h in
      (fb, (src, (hal, (refl, (refl, (refl, sent))))))

  shadow-Ends :
      (p : Pipeline) (fb : Framebuffer) (r : Rect) (shadow : Option (List ℕ))
      → Ends p p' s' out (from_shadow funcs p fb r s shadow)
      → SentWhole (some fb) shadow p.usb_hal r
  shadow-Ends p fb r none h = absurd (still_due p (count_vmap_null p) p' s s' out none refl h)
  shadow-Ends p fb r (some src) h =
      send-Ends (record p { dump_fb_flag = false }) fb r src (dump p.dump_fb_flag src fb) p.usb_hal
        h

  fb-Ends :
      (p : Pipeline) (state : PlaneState) (r : Rect) (fb : Option Framebuffer)
      → Ends p p' s' out (from_fb funcs p state r s fb)
      → SentWhole fb state.shadow p.usb_hal r
  fb-Ends p state r none h = absurd (still_due p (count_no_fb p) p' s s' out none refl h)
  fb-Ends p state r (some fb) h = shadow-Ends p fb r state.shadow h

  -- Where a refresh of the whole picture is due, an update ends it only if there is a framebuffer
  -- that is mapped and an adapter, and the call that sends this adapter the whole framebuffer
  -- returned code 0. That code alone does not say that the adapter has taken the picture: it is
  -- returned as well for one that is dropped.
  pub refresh_ends :
      (damage_merged : PlaneState → Option Rect) (p : Pipeline) (old : Option PlaneState)
      (state : PlaneState)
      → update_pipeline funcs damage_merged p old state s ≡ some (p', s', out)
      → p.needs_full_refresh ≡ true
      → p'.needs_full_refresh ≡ false
      → SentWhole state.fb state.shadow p.usb_hal (full state.fb)
  unfolding update_pipeline
  refresh_ends damage_merged p old state e due over =
      let m = damage_of p.needs_full_refresh damage_merged old in
      let whole : rect_of state.fb m ≡ full state.fb = rw due refl in
      subst (SentWhole state.fb state.shadow p.usb_hal) whole
        (fb-Ends (count_damage m p) state (rect_of state.fb m) state.fb (e, due, over))
