-- ===== src/Hal/Frame/Pixels/Received.antt =====
-- src/usb_hal/usb_hal_interface.c: where the chip finds a pixel in an update, by the update's header.
use ms912x.Base.{
  ℕ, ◌+◌, ◌-◌, ◌*◌, ◌/◌, ◌≤◌, ◌<◌, ◌≡◌, refl, ap, ◌∙◌, subst, ◌⊎◌, inl, inr, true, ◌&&◌, Option,
  none, some, List, [], ◌∷◌, ◌++◌, arith, ltb, leb, if◌then◌else◌, Bool-cases, length, take, drop,
  take_within,
}
use ms912x.Usb.{success, e_inval}
use ms912x.Hal.Dev.{Cursor, FrameRequest}
use ms912x.Hal.Frame.{pack_rect, update_len, frame_header, end_of_buffer}
use ms912x.Hal.Frame.Header.{decode_header, decode-frame_header}
use ms912x.Hal.Frame.Safety.{FitsCursor}
use ms912x.Hal.Frame.Pixels.{IsPair, IsPicture, pack_rows-IsPicture}

-- The chip's side: the four bytes of an update that hold the pixel at `x` and `y`, by the update's
-- header; `none` is a pixel outside of its rectangle.
abbrev pub piece : List ℕ → ℕ → ℕ → List ℕ → Option (List ℕ)
piece (x1 ∷ y1 ∷ width ∷ height ∷ []) x y body =
    if leb x1 x && (ltb x (x1 + width) && (leb y1 y && ltb y (y1 + height)))
    then some (take 4 (drop (4 * (width / 2 * (y - y1) + (x - x1) / 2)) body))
    else none
piece other x y body = none

abbrev pub received : List ℕ → ℕ → ℕ → Option (List ℕ)
received update x y = piece (decode_header update) x y (drop 8 update)

-- An update of a rectangle carries each of its pixels.
abbrev pub Carries : Cursor → List ℕ → ℕ → ℕ → ℕ → ℕ → ℕ → List ℕ → Type 0
Carries cur buf pitch x1 y1 w n update =
    (x y : ℕ)
    → x1 ≤ x
    → x < x1 + 2 * w
    → y1 ≤ y
    → y < y1 + n
    → (bytes : List ℕ) × ((received update x y ≡ some bytes)
        × IsPair cur buf pitch (x1 + 2 * ((x - x1) / 2)) y bytes)

-- The header of an update with what follows it.
header-piece :
    (x1 y1 w n x y : ℕ) (body : List ℕ)
    → x1 < 4096
    → y1 < 4096
    → 2 * w < 4096
    → n < 4096
    → x1 ≤ x
    → x < x1 + 2 * w
    → y1 ≤ y
    → y < y1 + n
    → received (frame_header x1 y1 (2 * w) n ++ body) x y
      ≡ some (take 4 (drop (4 * (w * (y - y1) + (x - x1) / 2)) body))
unfolding frame_header
header-piece x1 y1 w n x y body hx hy hw hn a b c e =
    let decoded = decode-frame_header x1 y1 (2 * w) n hx hy hw hn in
    let half : 2 * w / 2 ≡ w = omega arith in
    let inside : (leb x1 x && (ltb x (x1 + 2 * w) && (leb y1 y && ltb y (y1 + n)))) ≡ true =
      ground (arith, a, b, c, e) in
    ap (λ h. piece h x y body) decoded ∙ rw (inside, half) refl

module _ (cur : Cursor) (fits : FitsCursor cur) (buf : List ℕ) (pitch : ℕ) where
  picture-Carries :
      (x1 y1 w n : ℕ) (bytes : List ℕ)
      → x1 < 4096
      → y1 < 4096
      → 2 * w < 4096
      → n < 4096
      → IsPicture cur fits buf pitch n w x1 y1 bytes
      → Carries cur buf pitch x1 y1 w n (frame_header x1 y1 (2 * w) n ++ (bytes ++ end_of_buffer))
  picture-Carries x1 y1 w n bytes hx hy hw hn (len, pairs) x y a b c e =
      let r : ℕ = y - y1 in
      let col : ℕ = (x - x1) / 2 in
      let low : r < n = omega (arith, c, e) in
      let left : col < w = omega (arith, a, b) in
      let at_row : y1 + r ≡ y = omega (arith, c) in
      let room : w * r + w ≤ w * n = grind (arith, low) in
      let cut =
        take_within (4 * (w * r + col)) 4 bytes end_of_buffer (omega (arith, len, left, room)) in
      (
        take 4 (drop (4 * (w * r + col)) bytes),
        (
          header-piece x1 y1 w n x y (bytes ++ end_of_buffer) hx hy hw hn a b c e ∙ ap some cut,
          subst
              (λ row.
                IsPair cur buf pitch (x1 + 2 * col) row (take 4 (drop (4 * (w * r + col)) bytes)))
              at_row (pairs r col low left),
        ),
      )

  -- What packing a rectangle leaves: an error, or an update that carries the rectangle.
  pub pack_rect-Carries :
      (request : FrameRequest) (x1 y1 w n : ℕ)
      → x1 < 4096
      → y1 < 4096
      → 2 * w < 4096
      → n < 4096
      → (x1 + 2 * w) * 4 ≤ pitch
      → (y1 + n) * pitch ≤ length buf
      → (pack_rect cur request buf pitch x1 y1 (x1 + 2 * w) (y1 + n) ≡ some (e_inval, request))
        ⊎ ((r : FrameRequest) × ((pack_rect cur request buf pitch x1 y1 (x1 + 2 * w) (y1 + n)
                ≡ some (success, r))
              × Carries cur buf pitch x1 y1 w n r.transfer))
  unfolding pack_rect
  pack_rect-Carries request x1 y1 w n hx hy hw hn row_in all_in =
      let width : x1 + 2 * w - x1 ≡ 2 * w = omega arith in
      let height : y1 + n - y1 ≡ n = omega arith in
      let (bytes, (e, picture)) = pack_rows-IsPicture cur fits buf pitch n w x1 y1 row_in all_in in
      let rest = picture-Carries x1 y1 w n bytes hx hy hw hn picture in
      elim (Bool-cases (ltb request.alloc_len (update_len (2 * w) n))) [
        | inl small ↦ inl (rw (width, height, small) refl)
        | inr room ↦ inr (
          record request {
            transfer = frame_header x1 y1 (2 * w) n ++ (bytes ++ end_of_buffer);
            transfer_len = update_len (2 * w) n;
          },
          (rw (width, height, room, e) refl, rest),
        )
      ]
