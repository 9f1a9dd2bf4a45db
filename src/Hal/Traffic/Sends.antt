-- ===== src/Hal/Traffic/Sends.antt =====
-- src/usb_hal/usb_hal_interface.c: what sending a picture does to the completions, wherever the cursor's
-- box lies and however long the framebuffer is.
use ms912x.Base.{
  ℕ, zero, suc, ◌-◌, ◌<◌, ◌≡◌, refl, sym, subst, ◌⊎◌, inl, inr, Bool, true, not, Option, none, some,
  List, arith, ltb, Bool-cases, Option-cases,
}
use ms912x.Base.Int.{ℤ}
use ms912x.Usb.{success, e_inval}
use ms912x.Hal.Dev.{Cursor, Dev, FrameRequest}
use ms912x.Hal.Frame.{◌>>=?◌, pack_rows, pack_rect, update_len}
use ms912x.Hal.Request.{
  clip_x1, clip_y1, clip_x2, clip_y2, slot, set_slot, taken, claim, Sent, after_pack, send_claimed,
  send_clipped, send_xrgb8888_rect,
}
use ms912x.Hal.Request.Slots.{send_branches, Claimed, claim-Claimed}
use ms912x.Hal.Traffic.Queue.{Effect}

-- What holds of a result, if the call returns one.
abbrev Ever : {A : Type 0} → (A → Type 0) → Option A → Type 0
Ever P none = Unit
Ever P (some a) = P a

Ever-bind :
    {A B : Type 0} (P : A → Type 0) (Q : B → Type 0) (f : A → Option B) (o : Option A)
    → Ever P o
    → ((a : A) → P a → Ever Q (f a))
    → Ever Q (o >>=? f)
Ever-bind P Q f none h k = tt
Ever-bind P Q f (some a) h k = k a h

Ever-elim : {A : Type 0} (P : A → Type 0) (o : Option A) (a : A) → Ever P o → o ≡ some a → P a
Ever-elim P o a h e = subst (Ever P) e h

abbrev SentEffect : Dev → Sent → Type 0
SentEffect d s =
    Effect d.request0.done d.request1.done s.dev.request0.done s.dev.request1.done s.queued

-- A packing does not touch the completion, and its code is 0 or -EINVAL.
abbrev IsPacked : FrameRequest → ℤ × FrameRequest → Type 0
IsPacked request (rtn, r) = (rtn ≡ e_inval ⊎ rtn ≡ success) × (r.done ≡ request.done)

pack_rect-IsPacked :
    (cur : Cursor) (request : FrameRequest) (buf : List ℕ) (pitch x1 y1 x2 y2 : ℕ)
    → Ever (IsPacked request) (pack_rect cur request buf pitch x1 y1 x2 y2)
unfolding pack_rect
pack_rect-IsPacked cur request buf pitch x1 y1 x2 y2 =
    elim (Bool-cases (ltb request.alloc_len (update_len (x2 - x1) (y2 - y1)))) [
      | inl small ↦ rw small (inl refl, refl)
      | inr room ↦
          rw room (elim (Option-cases (pack_rows (y2 - y1) cur buf pitch x1 (x2 - x1) y1)) [
            | inl none' ↦ rw none' tt
            | inr (bytes, e) ↦ rw e (inr refl, refl)
          ])
    ]

after_pack-SentEffect :
    (ms : ℕ) (b : Bool) (d : Dev) (i : ℕ) (r : ℤ × FrameRequest)
    → i < 2
    → (slot d i).done ≡ true
    → IsPacked (record (slot (taken d i) i) { first_frame = b }) r
    → SentEffect d (
        after_pack ms i
          (set_slot (taken d i) i (record (slot (taken d i) i) { first_frame = b }))
          r)
unfolding after_pack taken
after_pack-SentEffect ms b d zero r lt free (inl e, f) = rw e (sym free, refl)
after_pack-SentEffect ms b d zero r lt free (inr e, f) = rw e (free, f, refl)
after_pack-SentEffect ms b d (suc zero) r lt free (inl e, f) = rw e (refl, sym free)
after_pack-SentEffect ms b d (suc zero) r lt free (inr e, f) = rw e (free, f, refl)
after_pack-SentEffect ms b d (suc (suc i)) r lt free p = absurd (omega arith)

send_claimed-SentEffect :
    (ms : ℕ) (b : Bool) (buf : List ℕ) (pitch x1 y1 x2 y2 : ℕ) (d : Dev) (c : Option ℕ × Dev)
    → Claimed d c
    → Ever (SentEffect d) (send_claimed ms b buf pitch x1 y1 x2 y2 c)
unfolding send_claimed
send_claimed-SentEffect ms b buf pitch x1 y1 x2 y2 d (none, d') (e, f) = rw e (refl, refl)
send_claimed-SentEffect ms b buf pitch x1 y1 x2 y2 d (some i, d') (lt, (free, e)) = rw e (
    Ever-bind (IsPacked (record (slot (taken d i) i) { first_frame = b })) (SentEffect d) _
      (pack_rect (taken d i).cursor (record (slot (taken d i) i) { first_frame = b }) buf pitch x1
        y1 x2 y2)
      (pack_rect-IsPacked (taken d i).cursor (record (slot (taken d i) i) { first_frame = b }) buf
        pitch x1 y1 x2 y2)
      λ r p. after_pack-SentEffect ms b d i r lt free p)

idle-SentEffect :
    (d : Dev) (s : Sent)
    → s.queued ≡ none
    → s.dev.request0 ≡ d.request0
    → s.dev.request1 ≡ d.request1
    → SentEffect d s
idle-SentEffect d s none' e0 e1 = rw (none', e0, e1) (refl, refl)

-- A call that returns leaves the completions and queues no request, or completes none, takes a free
-- one and queues it.
pub send-Effect :
    (ms : ℕ) (d : Dev) (buf : List ℕ) (width height pitch : ℕ) (x1 y1 : ℤ) (x2 y2 : ℕ) (s : Sent)
    → send_xrgb8888_rect ms d buf width height pitch x1 y1 x2 y2 ≡ some s
    → Effect d.request0.done d.request1.done s.dev.request0.done s.dev.request1.done s.queued
unfolding send_clipped
send-Effect ms d buf width height pitch x1 y1 x2 y2 s e =
    Ever-elim (SentEffect d) (send_xrgb8888_rect ms d buf width height pitch x1 y1 x2 y2) s
      (send_branches (Ever (SentEffect d)) ms d buf width height pitch x1 y1 x2 y2
        (idle-SentEffect d)
        λ hx hy even row_in.
          send_claimed-SentEffect ms (not d.first_buf_send) buf pitch (clip_x1 x1) (clip_y1 y1)
            (clip_x2 width x2) (clip_y2 height y2) d (claim d) (claim-Claimed d))
      e
