-- ===== src/Hal/Request/Picture.antt =====
-- src/usb_hal/usb_hal_interface.c: the update that a picture's request holds carries the damaged pixels.
use ms912x.Base.{
  ℕ, zero, suc, ◌+◌, ◌-◌, ◌*◌, ◌/◌, ◌%◌, ◌≤◌, ◌<◌, bit_and, ◌≡◌, sym, ap, ◌∙◌, subst, inl, inr,
  Bool, not, Option, none, some, List, arith, Option-cases, length,
}
use ms912x.Base.Int.{ℤ, pos_part}
use ms912x.Base.Bits.{bit_and_0xffc, bit_and_0xffe}
use ms912x.Usb.{success}
use ms912x.Hal.Dev.{Cursor, Dev, FrameRequest}
use ms912x.Hal.Frame.{Pixel, encode_pair}
use ms912x.Hal.Frame.Safety.{Returns, returned, Returns-elim, FitsCursor}
use ms912x.Hal.Frame.Pixels.{shown}
use ms912x.Hal.Frame.Pixels.Received.{received, Carries, pack_rect-Carries}
use ms912x.Hal.Request.{
  clip_x1, clip_y1, clip_x2, clip_y2, slot, set_slot, taken, claim, Sent, after_pack, send_claimed,
  send_clipped, send_xrgb8888_rect,
}
use ms912x.Hal.Request.Slots.{
  send_branches, Returns-map, min_rows, Claimed, claim-Claimed, taken-cursor,
}

-- A request that is queued carries the rectangle; nothing is said where none is.
abbrev pub Sends : Cursor → List ℕ → ℕ → ℕ → ℕ → ℕ → ℕ → Sent → Type 0
Sends cur buf pitch x1 y1 w n s = elim s.queued [
  | none ↦ Unit {0}
  | some i ↦ Carries cur buf pitch x1 y1 w n (slot s.dev i).transfer
]

after_pack-Sends :
    (ms : ℕ) (cur : Cursor) (d : Dev) (i : ℕ) (r : FrameRequest) (buf : List ℕ)
    (pitch x1 y1 w n : ℕ)
    → i < 2
    → Carries cur buf pitch x1 y1 w n r.transfer
    → Sends cur buf pitch x1 y1 w n (after_pack ms i d (success, r))
unfolding after_pack
after_pack-Sends ms cur d zero r buf pitch x1 y1 w n lt c = c
after_pack-Sends ms cur d (suc zero) r buf pitch x1 y1 w n lt c = c
after_pack-Sends ms cur d (suc (suc i)) r buf pitch x1 y1 w n lt c = absurd (omega (arith, lt))

module _ (ms : ℕ) (b : Bool) (buf : List ℕ) (pitch x1 y1 w n : ℕ) (hx : x1 < 4096) (hy : y1 < 4096)
    (hw : 2 * w < 4096) (hn : n < 4096) (row_in : (x1 + 2 * w) * 4 ≤ pitch)
    (all_in : (y1 + n) * pitch ≤ length buf) where
  send_claimed-Sends :
      (d : Dev) (c : Option ℕ × Dev)
      → FitsCursor d.cursor
      → Claimed d c
      → Returns
          (Sends d.cursor buf pitch x1 y1 w n)
          (send_claimed ms b buf pitch x1 y1 (x1 + 2 * w) (y1 + n) c)
  unfolding send_claimed after_pack
  send_claimed-Sends d (none, d') fits (e, f) = returned tt
  send_claimed-Sends d (some i, d') fits (lt, (free, e)) =
      let cur = (taken d i).cursor in
      let same = taken-cursor d i in
      let request = record (slot (taken d i) i) { first_frame = b } in
      let fits' = subst FitsCursor (sym same) fits in
      rw e
        (elim (pack_rect-Carries cur fits' buf pitch request x1 y1 w n hx hy hw hn row_in all_in) [
          | inl refused ↦ rw refused (returned tt)
          | inr (r, (made, carried)) ↦
              let carried' = subst (λ c. Carries c buf pitch x1 y1 w n r.transfer) same carried in
              let done =
                after_pack-Sends ms d.cursor (set_slot (taken d i) i request) i r buf pitch x1 y1 w
                  n lt carried' in
              rw made (returned done)
        ])

-- The rectangle after the clipping has the pixels of the one before that lie on the screen.
clip_lem :
    (width x2 x : ℕ) (x1 : ℤ)
    → x2 ≤ 4092
    → pos_part x1 ≤ x
    → x < x2
    → x < width
    → (clip_x1 x1 ≤ x)
      × ((x < clip_x2 width x2)
          × ((clip_x1 x1 + 2 * ((x - clip_x1 x1) / 2) ≡ 2 * (x / 2))
              × ((clip_x1 x1 < 4096) × (clip_x2 width x2 < 4096))))
clip_lem width x2 x x1 small above below inside =
    let lo = bit_and_0xffc (pos_part x1) in
    let hi = bit_and_0xffc (x2 + 3) in
    let at_lo : clip_x1 x1 ≤ x = omega (arith, lo, above) in
    let at_hi : x < clip_x2 width x2 = omega (arith, hi, small, below, inside) in
    (at_lo, (at_hi, (omega (arith, lo, at_lo), (omega (arith, lo), omega (arith, hi)))))

clip_rows_lem :
    (height y2 y : ℕ) (y1 : ℤ)
    → y2 ≤ 4094
    → pos_part y1 ≤ y
    → y < y2
    → y < height
    → (clip_y1 y1 ≤ y)
      × ((y < clip_y2 height y2) × ((clip_y1 y1 < 4096) × (clip_y2 height y2 < 4096)))
clip_rows_lem height y2 y y1 small above below inside =
    let lo = bit_and_0xffe (pos_part y1) in
    let hi = bit_and_0xffe (y2 + 1) in
    (
      omega (arith, lo, above),
      (omega (arith, hi, small, below, inside), (omega (arith, lo), omega (arith, hi))),
    )

send_clipped-Sends :
    (ms : ℕ) (d : Dev) (buf : List ℕ) (pitch x1 y1 x2 y2 : ℕ)
    → FitsCursor d.cursor
    → x1 < x2
    → y1 < y2
    → (x2 - x1) % 2 ≡ 0
    → x2 < 4096
    → y2 < 4096
    → x2 * 4 ≤ pitch
    → y2 * pitch ≤ length buf
    → Returns
        (Sends d.cursor buf pitch x1 y1 ((x2 - x1) / 2) (y2 - y1))
        (send_clipped ms d buf pitch x1 y1 x2 y2)
unfolding send_clipped
send_clipped-Sends ms d buf pitch x1 y1 x2 y2 fits hx hy even small low hw h =
    let w : ℕ = (x2 - x1) / 2 in
    let n : ℕ = y2 - y1 in
    let ex : x1 + 2 * w ≡ x2 = omega (arith, hx, even) in
    let ey : y1 + n ≡ y2 = omega (arith, hy) in
    let row_in : (x1 + 2 * w) * 4 ≤ pitch = omega (arith, hw, ex) in
    let all_in : (y1 + n) * pitch ≤ length buf = subst (λ m. m * pitch ≤ length buf) (sym ey) h in
    let t =
      send_claimed-Sends ms (not d.first_buf_send) buf pitch x1 y1 w n (omega (arith, hx, small))
        (omega (arith, hy, low)) (omega (arith, ex, small)) (omega (arith, low)) row_in all_in d
        (claim d) fits (claim-Claimed d) in
    subst
      (λ m.
        Returns (Sends d.cursor buf pitch x1 y1 w n)
          (send_claimed ms (not d.first_buf_send) buf pitch x1 y1 m y2 (claim d)))
      ex
      (subst
        (λ m.
          Returns (Sends d.cursor buf pitch x1 y1 w n)
            (send_claimed ms (not d.first_buf_send) buf pitch x1 y1 (x1 + 2 * w) m (claim d)))
        ey t)

-- The same by the rectangle's corners; its width is even.
abbrev Covers : Cursor → List ℕ → ℕ → ℕ → ℕ → ℕ → ℕ → Sent → Type 0
Covers cur buf pitch x1 y1 x2 y2 s = elim s.queued [
  | none ↦ Unit {0}
  | some i ↦
      ((x2 - x1) % 2 ≡ 0)
      × Carries cur buf pitch x1 y1 ((x2 - x1) / 2) (y2 - y1) (slot s.dev i).transfer
]

Covers-idle :
    (cur : Cursor) (buf : List ℕ) (pitch x1 y1 x2 y2 : ℕ) (s : Sent)
    → s.queued ≡ none
    → Covers cur buf pitch x1 y1 x2 y2 s
Covers-idle cur buf pitch x1 y1 x2 y2 s e = rw e tt

Covers-Sends :
    (cur : Cursor) (buf : List ℕ) (pitch x1 y1 x2 y2 : ℕ) (s : Sent)
    → (x2 - x1) % 2 ≡ 0
    → Sends cur buf pitch x1 y1 ((x2 - x1) / 2) (y2 - y1) s
    → Covers cur buf pitch x1 y1 x2 y2 s
Covers-Sends cur buf pitch x1 y1 x2 y2 s even h = elim (Option-cases s.queued) [
  | inl e ↦ rw e tt
  | inr (i, e) ↦ rw e (even, rw e at h)
]

Carries-Covers :
    (cur : Cursor) (buf : List ℕ) (pitch x1 y1 x2 y2 : ℕ) (s : Sent) (i : ℕ)
    → s.queued ≡ some i
    → Covers cur buf pitch x1 y1 x2 y2 s
    → ((x2 - x1) % 2 ≡ 0)
      × Carries cur buf pitch x1 y1 ((x2 - x1) / 2) (y2 - y1) (slot s.dev i).transfer
Carries-Covers cur buf pitch x1 y1 x2 y2 s i e h = rw e at h

-- For a cursor whose box lies in its buffer, a framebuffer of `height` rows of `pitch` bytes and a
-- rectangle that ends before column 4093 and row 4095: if a call queues a request, then each pixel of
-- the rectangle that lies on the screen is in the request's update, where the header says. With its
-- neighbour it is encoded from the framebuffer's pixels at its place, with the cursor over them.
pub send_xrgb8888_rect-shown :
    (ms : ℕ) (d : Dev) (buf : List ℕ) (width height pitch : ℕ) (x1 y1 : ℤ) (x2 y2 x y : ℕ)
    (s : Sent) (i : ℕ)
    → FitsCursor d.cursor
    → height * pitch ≤ length buf
    → x2 ≤ 4092
    → y2 ≤ 4094
    → pos_part x1 ≤ x
    → x < x2
    → x < width
    → pos_part y1 ≤ y
    → y < y2
    → y < height
    → send_xrgb8888_rect ms d buf width height pitch x1 y1 x2 y2 ≡ some s
    → s.queued ≡ some i
    → (p : Pixel) × ((q : Pixel) × ((received (slot s.dev i).transfer x y ≡ some (encode_pair p q))
          × (shown d.cursor buf pitch (2 * (x / 2)) y ≡ some p)
          × (shown d.cursor buf pitch (2 * (x / 2) + 1) y ≡ some q)))
send_xrgb8888_rect-shown ms d buf width height pitch x1 y1 x2 y2 x y s i fits h wide tall above
      below inside above' below' inside' e queued =
    let (c0, (c1, (even, (c2, c3)))) = clip_lem width x2 x x1 wide above below inside in
    let (r0, (r1, (r2, r3))) = clip_rows_lem height y2 y y1 tall above' below' inside' in
    let X = clip_x1 x1 in
    let Y = clip_y1 y1 in
    let X2 = clip_x2 width x2 in
    let Y2 = clip_y2 height y2 in
    let all =
      send_branches (Returns (Covers d.cursor buf pitch X Y X2 Y2)) ms d buf width height pitch x1
        y1 x2 y2 (λ s none' e0 e1. returned (Covers-idle d.cursor buf pitch X Y X2 Y2 s none'))
        (λ hx hy two row_in.
          Returns-map (send_clipped ms d buf pitch X Y X2 Y2)
            (send_clipped-Sends ms d buf pitch X Y X2 Y2 fits hx hy two c3 r3
              (ground (arith, row_in))
              (grind (arith, h, min_rows height (bit_and (y2 + 1) 0xffe) pitch)))
            (λ s h. Covers-Sends d.cursor buf pitch X Y X2 Y2 s two h)) in
    let covers =
      Returns-elim (send_xrgb8888_rect ms d buf width height pitch x1 y1 x2 y2) s all e in
    let (two, carries) = Carries-Covers d.cursor buf pitch X Y X2 Y2 s i queued covers in
    let right : x < X + 2 * ((X2 - X) / 2) = omega (arith, two, c0, c1) in
    let low : y < Y + (Y2 - Y) = omega (arith, r0, r1) in
    let (bytes, (there, (p, (q, (ep, eq, pair))))) = carries x y c0 right r0 low in
    (
      p,
      (
        q,
        (
          there ∙ ap some pair,
          ap (λ m. shown d.cursor buf pitch m y) (sym even) ∙ ep,
          ap (λ m. shown d.cursor buf pitch (m + 1) y) (sym even) ∙ eq,
        ),
      ),
    )
