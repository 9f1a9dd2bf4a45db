-- ===== src/Hal/Request/Slots.antt =====
-- src/usb_hal/usb_hal_interface.c: which of the two requests a call takes, and what it leaves in it.
use ms912x.Base.{
  ℕ, zero, suc, ◌+◌, ◌-◌, ◌*◌, ◌/◌, ◌%◌, ◌≤◌, ◌<◌, min, bit_and, ◌≡◌, refl, sym, ◌≢◌, ◌⊎◌, inl, inr,
  Bool, true, false, not, ◌||◌, Option, none, some, List, arith, ltb, leb, ◌==◌, Bool-cases, length,
  All,
}
use ms912x.Base.Int.{ℤ}
use ms912x.Usb.{success, e_inval}
use ms912x.Hal.Dev.{Cursor, Dev, FrameRequest}
use ms912x.Hal.Frame.{pack_rect, update_len}
use ms912x.Hal.Frame.Safety.{Returns, returned, Returns-bind, FitsCursor, IsByte, pack_rect_safe}
use ms912x.Hal.Request.{
  is_enabled, clip_x1, clip_y1, clip_x2, clip_y2, slot, set_slot, taken, claim_from, claim, Sent,
  after_pack, send_claimed, send_clipped, send_xrgb8888_rect,
}

-- What a claim gives: no request, and both are in use; or a free one, which is in use afterwards,
-- and the next search begins at the other.
abbrev pub Claimed : Dev → Option ℕ × Dev → Type 0
Claimed d (none, d') = (d' ≡ d) × ((d.request0.done ≡ false) × (d.request1.done ≡ false))
Claimed d (some i, d') = (i < 2) × (((slot d i).done ≡ true) × (d' ≡ taken d i))

both_used :
    (d : Dev) (i j : ℕ)
    → i < 2
    → j < 2
    → i ≢ j
    → (slot d i).done ≡ false
    → (slot d j).done ≡ false
    → (d.request0.done ≡ false) × (d.request1.done ≡ false)
both_used d zero zero hi hj ne a b = absurd (ne refl)
both_used d zero (suc zero) hi hj ne a b = (a, b)
both_used d (suc zero) zero hi hj ne a b = (b, a)
both_used d zero (suc (suc j)) hi hj ne a b = absurd (omega arith)
both_used d (suc (suc i)) j hi hj ne a b = absurd (omega arith)
both_used d (suc zero) (suc j) hi hj ne a b = absurd (ne (omega arith))

apart : (c : ℕ) → (c + 0) % 2 ≢ (c + 1) % 2
apart c e = omega arith

-- A claim takes a request that was free, marks it as in use and changes nothing else but the place
-- where the next search begins; it takes none only if both are in use.
pub claim-Claimed : (d : Dev) → Claimed d (claim d)
unfolding claim claim_from
claim-Claimed d =
    let i = (d.current_request + 0) % 2 in
    let j = (d.current_request + 1) % 2 in
    elim (Bool-cases (slot d i).done) [
      | inl free ↦ rw free (omega arith, (free, refl))
      | inr used ↦ elim (Bool-cases (slot d j).done) [
        | inl free ↦ rw (used, free) (omega arith, (free, refl))
        | inr used1 ↦
            rw (used, used1)
              (
                refl,
                both_used d i j (omega arith) (omega arith) (apart d.current_request) used used1,
              )
      ]
    ]

-- What a call leaves behind: nothing is queued and both completions are as they were, or a free request
-- is queued, in use, with as many bytes to transfer as its length says; the other is as it was.
abbrev pub Outcome : Dev → Sent → Type 0
Outcome d s = elim s.queued [
  | none ↦ (s.dev.request0.done ≡ d.request0.done) × (s.dev.request1.done ≡ d.request1.done)
  | some i ↦
      ((s.code ≡ success) × (i < 2))
      × (((slot d i).done ≡ true)
          × (((slot s.dev i).done ≡ false)
              × ((length (slot s.dev i).transfer ≡ (slot s.dev i).transfer_len)
                  × (All IsByte (slot s.dev i).transfer × (slot s.dev (1 - i) ≡ slot d (1 - i))))))
]

-- What a packing gives: an error and the request as it was, or an update that is as long as it says.
Packed : FrameRequest → ℤ × FrameRequest → Type 0
Packed request (rtn, r) =
    ((rtn ≡ e_inval) × (r ≡ request))
    ⊎ ((rtn ≡ success)
        × ((r.done ≡ request.done)
            × ((length r.transfer ≡ r.transfer_len) × All IsByte r.transfer)))

pub taken-cursor : (d : Dev) (i : ℕ) → (taken d i).cursor ≡ d.cursor
unfolding taken
taken-cursor d i = elim (Bool-cases (i == 0)) [ inl e ↦ rw e refl | inr e ↦ rw e refl ]

after_pack_lem :
    (ms : ℕ) (b : Bool) (d : Dev) (i : ℕ) (r : ℤ × FrameRequest)
    → i < 2
    → (slot d i).done ≡ true
    → Packed (record (slot (taken d i) i) { first_frame = b }) r
    → Outcome d (
        after_pack ms i
          (set_slot (taken d i) i (record (slot (taken d i) i) { first_frame = b }))
          r)
unfolding Packed after_pack taken
after_pack_lem ms b d zero r lt free (inl (e, f)) = rw e (sym free, refl)
after_pack_lem ms b d zero r lt free (inr (e, (f, g))) =
    rw e ((refl, lt), (free, (f, (g.0, (g.1, refl)))))
after_pack_lem ms b d (suc zero) r lt free (inl (e, f)) = rw e (refl, sym free)
after_pack_lem ms b d (suc zero) r lt free (inr (e, (f, g))) =
    rw e ((refl, lt), (free, (f, (g.0, (g.1, refl)))))
after_pack_lem ms b d (suc (suc i)) r lt free p = absurd (omega arith)

pub Returns-map :
    {A : Type 0} {P Q : A → Type 0} (o : Option A)
    → Returns P o
    → ((a : A) → P a → Q a)
    → Returns Q o
Returns-map none h k = elim h [ ]
Returns-map (some a) (returned h) k = returned (k a h)

module _ (ms : ℕ) (b : Bool) (buf : List ℕ) (pitch x1 y1 w n : ℕ) where
  module _ (hw : (x1 + 2 * w) * 4 ≤ pitch) (h : (y1 + n) * pitch ≤ length buf) where
    pack_Packed :
        (cur : Cursor) (request : FrameRequest)
        → FitsCursor cur
        → Returns (Packed request) (pack_rect cur request buf pitch x1 y1 (x1 + 2 * w) (y1 + n))
    unfolding Packed
    pack_Packed cur request fits =
        Returns-map (pack_rect cur request buf pitch x1 y1 (x1 + 2 * w) (y1 + n))
          (pack_rect_safe cur fits request buf pitch x1 y1 w n hw h)
          λ r post. elim (Bool-cases (ltb request.alloc_len (update_len (2 * w) n))) [
            | inl small ↦ inl (rw small at post)
            | inr room ↦ inr (rw room at post)
          ]

    send_claimed_lem :
        (d : Dev) (c : Option ℕ × Dev)
        → FitsCursor d.cursor
        → Claimed d c
        → Returns (Outcome d) (send_claimed ms b buf pitch x1 y1 (x1 + 2 * w) (y1 + n) c)
    unfolding send_claimed
    send_claimed_lem d (none, d') fits (e, f) = returned (rw e (refl, refl))
    send_claimed_lem d (some i, d') fits (lt, (free, e)) = rw e (
        Returns-bind _
          (pack_rect (taken d i).cursor (record (slot (taken d i) i) { first_frame = b }) buf pitch
            x1 y1 (x1 + 2 * w) (y1 + n))
          (pack_Packed (taken d i).cursor (record (slot (taken d i) i) { first_frame = b })
            (rw (taken-cursor d i) fits))
          λ r p. returned (after_pack_lem ms b d i r lt free p))

pub min_rows : (a b pitch : ℕ) → min a b * pitch ≤ a * pitch
min_rows a b pitch = grind arith

send_clipped_lem :
    (ms : ℕ) (d : Dev) (buf : List ℕ) (pitch x1 y1 x2 y2 : ℕ)
    → FitsCursor d.cursor
    → x1 < x2
    → y1 < y2
    → (x2 - x1) % 2 ≡ 0
    → x2 * 4 ≤ pitch
    → y2 * pitch ≤ length buf
    → Returns (Outcome d) (send_clipped ms d buf pitch x1 y1 x2 y2)
unfolding send_clipped
send_clipped_lem ms d buf pitch x1 y1 x2 y2 fits hx hy even hw h =
    let ex : x2 ≡ x1 + 2 * ((x2 - x1) / 2) = omega arith in
    let ey : y2 ≡ y1 + (y2 - y1) = omega arith in
    let hw' : (x1 + 2 * ((x2 - x1) / 2)) * 4 ≤ pitch = omega arith in
    let h' : (y1 + (y2 - y1)) * pitch ≤ length buf = rw (← ey) h in
    let t =
      send_claimed_lem ms (not d.first_buf_send) buf pitch x1 y1 ((x2 - x1) / 2) (y2 - y1) hw' h' d
        (claim d) fits (claim-Claimed d) in
    rw (← ex, ← ey) at t

-- What holds of every call: it holds where nothing is queued and both requests are as they
-- were, and of the clipped rectangle.
pub send_branches :
    (P : Option Sent → Type 0) (ms : ℕ) (d : Dev) (buf : List ℕ) (width height pitch : ℕ)
    (x1 y1 : ℤ) (x2 y2 : ℕ)
    → ((s : Sent)
        → s.queued ≡ none
        → s.dev.request0 ≡ d.request0
        → s.dev.request1 ≡ d.request1
        → P (some s))
    → (clip_x1 x1 < clip_x2 width x2
        → clip_y1 y1 < clip_y2 height y2
        → (clip_x2 width x2 - clip_x1 x1) % 2 ≡ 0
        → width * 4 ≤ pitch
        → P (
            send_clipped ms d buf pitch
              (clip_x1 x1)
              (clip_y1 y1)
              (clip_x2 width x2)
              (clip_y2 height y2)))
    → P (send_xrgb8888_rect ms d buf width height pitch x1 y1 x2 y2)
unfolding send_xrgb8888_rect
send_branches P ms d buf width height pitch x1 y1 x2 y2 idle clipped =
    elim (Bool-cases (is_enabled d)) [
      | inr off ↦ rw off (idle _ refl refl refl)
      | inl on ↦
          elim (Bool-cases (
            not (width == d.mode.width)
            || (not (height == d.mode.height) || ltb pitch (width * 4)))) [
              | inl bad ↦ rw (on, bad) (idle _ refl refl refl)
              | inr good ↦
                  elim (Bool-cases (
                    leb (clip_x2 width x2) (clip_x1 x1)
                    || (leb (clip_y2 height y2) (clip_y1 y1)
                        || not ((clip_x2 width x2 - clip_x1 x1) % 2 == 0)))) [
                          | inl empty ↦ rw (on, good, empty) (idle _ refl refl refl)
                          | inr some_ ↦
                              rw (on, good, some_)
                                (clipped (ground arith) (ground arith) (ground arith)
                                  (ground arith))
                        ]
            ]
    ]

Outcome-idle :
    (d : Dev) (s : Sent)
    → s.queued ≡ none
    → s.dev.request0 ≡ d.request0
    → s.dev.request1 ≡ d.request1
    → Outcome d s
Outcome-idle d s none' e0 e1 = rw (none', e0, e1) (refl, refl)

-- For a cursor whose box lies in its buffer and a framebuffer of `height` rows of `pitch` bytes, a call
-- reads no byte out of bounds, for every mode and every rectangle whose `x2` and `y2` are not negative.
-- If it queues nothing, both completions are as they were; if it queues a request, this was free and
-- is in use now, it holds as many bytes as its length says, and the other request is as it was.
pub send_xrgb8888_rect-Outcome :
    (ms : ℕ) (d : Dev) (buf : List ℕ) (width height pitch : ℕ) (x1 y1 : ℤ) (x2 y2 : ℕ)
    → FitsCursor d.cursor
    → height * pitch ≤ length buf
    → Returns (Outcome d) (send_xrgb8888_rect ms d buf width height pitch x1 y1 x2 y2)
send_xrgb8888_rect-Outcome ms d buf width height pitch x1 y1 x2 y2 fits h =
    send_branches (Returns (Outcome d)) ms d buf width height pitch x1 y1 x2 y2
      (λ s none' e0 e1. returned (Outcome-idle d s none' e0 e1))
      λ hx hy even row_in.
        send_clipped_lem ms d buf pitch (clip_x1 x1) (clip_y1 y1) (clip_x2 width x2)
          (clip_y2 height y2) fits hx hy even (ground (arith, row_in))
          (grind (arith, h, min_rows height (bit_and (y2 + 1) 0xffe) pitch))
