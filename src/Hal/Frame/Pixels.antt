-- ===== src/Hal/Frame/Pixels.antt =====
-- src/usb_hal/usb_hal_interface.c: an update, read as the chip reads it, holds the pixels of the
-- framebuffer with the cursor over them.
pub mod Received
use ms912x.Base.{
  ℕ, zero, suc, ◌+◌, ◌-◌, ◌*◌, ◌/◌, ◌%◌, ◌^◌, ◌≤◌, ◌<◌, min, max, bit_and, bit_or, ◌≡◌, refl, sym,
  ap, ◌∙◌, subst, ◌≢◌, ◌↔◌, ◌⊎◌, inl, inr, Bool, true, false, not, ◌&&◌, ◌||◌, Option, none, some,
  List, [], ◌∷◌, ◌++◌, map, arith, ltb, leb, ◌==◌, if◌then◌else◌, ltb→lt, lt→ltb, leb→le, ==_iff,
  Bool-cases, Option-cases, length, get_elem?, get_or, set, take, drop, replicate, length-append,
  length-set, get_elem?-set_self, get_elem?-set_ne, get_elem?-lt, get_elem?-bound, get_elem?_past,
  length-take, length-drop, length-replicate, take_front, drop_front, take_within, All, All-append,
}
use ms912x.Base.Int.{ℤ, pos, negsuc, ◌+ℤ◌, ◌-ℤ◌}
use ms912x.Usb.{success, e_inval}
use ms912x.Hal.Dev.{Cursor, FrameRequest}
use ms912x.Hal.Frame.{
  Pixel, ◌>>=?◌, encode_pair, load_pixel, overlay, in_cursor_row, pack_pair, pack_cols, pack_rows,
  pack_rect, update_len, frame_header, end_of_buffer,
}
use ms912x.Hal.Frame.Header.{decode_header, decode-frame_header}
use ms912x.Hal.Frame.Safety.{
  FitsCursor, Returns, returned, load_pixel_lem, overlay_lem, row_in_cursor,
}

-- What the screen is to show at column `x` and row `y`: the framebuffer's pixel, with the cursor over it.
abbrev pub shown : Cursor → List ℕ → ℕ → ℕ → ℕ → Option Pixel
shown cur buf pitch x y = load_pixel buf (y * pitch + x * 4) >>=? λ p.
    if in_cursor_row cur y then overlay cur (pos x -ℤ cur.x) (pos y -ℤ cur.y) p else some p

-- The four bytes for the pixels at columns `x` and `x + 1` of row `y`.
abbrev pub IsPair : Cursor → List ℕ → ℕ → ℕ → ℕ → List ℕ → Type 0
IsPair cur buf pitch x y bytes =
    (p : Pixel) × ((q : Pixel) × ((shown cur buf pitch x y ≡ some p)
        × (shown cur buf pitch (x + 1) y ≡ some q)
        × (bytes ≡ encode_pair p q)))

Returns-some :
    {A : Type 0} {P : A → Type 0} (o : Option A) → Returns P o → (a : A) × ((o ≡ some a) × P a)
Returns-some none r = elim r [ ]
Returns-some (some a) (returned p) = (a, (refl, p))

next_column : (x : ℕ) (c : ℤ) → (pos x -ℤ c) +ℤ pos 1 ≡ pos (x + 1) -ℤ c
unfolding ◌-ℤ◌ ◌+ℤ◌
next_column x (pos n) = ground arith
next_column x (negsuc n) = ground arith

module _ (cur : Cursor) (fits : FitsCursor cur) (buf : List ℕ) (pitch : ℕ) where
  pack_pair-IsPair :
      (row x src : ℕ)
      → src ≡ row * pitch + x * 4
      → src + 8 ≤ length buf
      → (bytes : List ℕ) × ((pack_pair cur buf row x src ≡ some bytes)
          × IsPair cur buf pitch x row bytes)
  unfolding pack_pair
  pack_pair-IsPair row x src e h =
      let (p, (e0, u)) =
        Returns-some (load_pixel buf src) (load_pixel_lem buf src (omega (arith, h))) in
      let (q, (e1, u')) =
        Returns-some (load_pixel buf (src + 4)) (load_pixel_lem buf (src + 4) (omega (arith, h))) in
      let at_0 : load_pixel buf (row * pitch + x * 4) ≡ some p = ap (load_pixel buf) (sym e) ∙ e0 in
      let at_1 : load_pixel buf (row * pitch + (x + 1) * 4) ≡ some q =
        ap (load_pixel buf) (omega (arith, e)) ∙ e1 in
      elim (Bool-cases (in_cursor_row cur row)) [
        | inr out ↦ (
          encode_pair p q,
          (rw (e0, e1, out) refl, (p, (q, (rw (at_0, out) refl, rw (at_1, out) refl, refl)))),
        )
        | inl on ↦
            let lt = row_in_cursor cur fits row on in
            let (p', (e2, v)) =
              Returns-some (overlay cur (pos x -ℤ cur.x) (pos row -ℤ cur.y) p)
                (overlay_lem cur fits _ _ p lt) in
            let (q', (e3, v')) =
              Returns-some (overlay cur (pos (x + 1) -ℤ cur.x) (pos row -ℤ cur.y) q)
                (overlay_lem cur fits _ _ q lt) in
            (
              encode_pair p' q',
              (
                rw (e0, e1, on, next_column x cur.x, e2, e3) refl,
                (p', (q', (rw (at_0, on) e2, rw (at_1, on) e3, refl))),
              ),
            )
      ]

  -- The bytes of `n` pairs of a row, from column `x` on.
  abbrev IsRow : ℕ → ℕ → ℕ → List ℕ → Type 0
  IsRow n x row bytes =
      (length bytes ≡ 4 * n)
      × ((c : ℕ) → c < n → IsPair cur buf pitch (x + 2 * c) row (take 4 (drop (4 * c) bytes)))

  IsPair-of_suc :
      (n x row : ℕ) (bytes rest : List ℕ)
      → IsPair cur buf pitch x row bytes
      → length bytes ≡ 4
      → IsRow n (x + 2) row rest
      → (c : ℕ) → c < suc n
      → IsPair cur buf pitch (x + 2 * c) row (take 4 (drop (4 * c) (bytes ++ rest)))
  IsPair-of_suc n x row bytes rest pair four (len, pairs) zero lt =
      let at_x : x ≡ x + 2 * 0 = omega arith in
      subst (λ y. IsPair cur buf pitch y row (take 4 (bytes ++ rest))) at_x
        (subst (IsPair cur buf pitch x row) (sym (take_front 4 bytes rest four)) pair)
  IsPair-of_suc n x row bytes rest pair four (len, pairs) (suc c) lt =
      let at_x : x + 2 + 2 * c ≡ x + 2 * suc c = omega arith in
      let at_b = drop_front (4 * suc c) (4 * c) bytes rest (omega (arith, four)) in
      subst (λ y. IsPair cur buf pitch y row (take 4 (drop (4 * suc c) (bytes ++ rest)))) at_x
        (subst (λ b. IsPair cur buf pitch (x + 2 + 2 * c) row (take 4 b)) (sym at_b)
          (pairs c (omega (arith, lt))))

  IsRow-suc :
      (n x row : ℕ) (bytes rest : List ℕ)
      → IsPair cur buf pitch x row bytes
      → IsRow n (x + 2) row rest
      → IsRow (suc n) x row (bytes ++ rest)
  unfolding encode_pair
  IsRow-suc n x row bytes rest (p, (q, (ep, eq, e))) more =
      let four : length bytes ≡ 4 = ap length e in
      (
        omega (arith, length-append bytes rest, more.0, four),
        IsPair-of_suc n x row bytes rest (p, (q, (ep, eq, e))) four more,
      )

  pack_cols-IsRow :
      (n row x src : ℕ)
      → src ≡ row * pitch + x * 4
      → src + 8 * n ≤ length buf
      → (bytes : List ℕ) × ((pack_cols n cur buf row x src ≡ some bytes) × IsRow n x row bytes)
  unfolding pack_cols
  pack_cols-IsRow zero row x src e h = ([], (refl, (refl, λ c lt. absurd (omega arith))))
  pack_cols-IsRow (suc n) row x src e h =
      let (bytes, (e0, pair)) = pack_pair-IsPair row x src e (omega (arith, h)) in
      let (rest, (e1, pairs)) =
        pack_cols-IsRow n row (x + 2) (src + 8) (omega (arith, e)) (omega (arith, h)) in
      (bytes ++ rest, (rw (e0, e1) refl, IsRow-suc n x row bytes rest pair pairs))

  -- The bytes of `n` rows of `w` pairs, from row `row` on.
  abbrev pub IsPicture : ℕ → ℕ → ℕ → ℕ → List ℕ → Type 0
  IsPicture n w x row bytes =
      (length bytes ≡ 4 * (w * n))
      × ((r c : ℕ)
          → r < n
          → c < w
          → IsPair cur buf pitch (x + 2 * c) (row + r) (take 4 (drop (4 * (w * r + c)) bytes)))

  IsPair-in_rows :
      (n w x row : ℕ) (bytes rest : List ℕ)
      → IsRow w x row bytes
      → IsPicture n w x (row + 1) rest
      → (r c : ℕ) → r < suc n
      → c < w
      → IsPair cur buf pitch (x + 2 * c) (row + r) (take 4 (drop (4 * (w * r + c)) (bytes ++ rest)))
  IsPair-in_rows n w x row bytes rest (len, pairs) (len', rows) zero c lt lt' =
      let at_row : row ≡ row + 0 = omega arith in
      let at_c : 4 * c ≡ 4 * (w * 0 + c) = omega arith in
      let piece = take_within (4 * c) 4 bytes rest (omega (arith, len, lt')) in
      subst
        (λ y. IsPair cur buf pitch (x + 2 * c) y (take 4 (drop (4 * (w * 0 + c)) (bytes ++ rest))))
        at_row
        (subst (λ m. IsPair cur buf pitch (x + 2 * c) row (take 4 (drop m (bytes ++ rest)))) at_c
          (subst (IsPair cur buf pitch (x + 2 * c) row) (sym piece) (pairs c lt')))
  IsPair-in_rows n w x row bytes rest (len, pairs) (len', rows) (suc r) c lt lt' =
      let at_row : row + 1 + r ≡ row + suc r = omega arith in
      let past : 4 * (w * suc r + c) ≡ length bytes + 4 * (w * r + c) = omega (arith, len) in
      let piece = drop_front (4 * (w * suc r + c)) (4 * (w * r + c)) bytes rest past in
      subst
        (λ y.
          IsPair cur buf pitch (x + 2 * c) y (take 4 (drop (4 * (w * suc r + c)) (bytes ++ rest))))
        at_row
        (subst (λ b. IsPair cur buf pitch (x + 2 * c) (row + 1 + r) (take 4 b)) (sym piece)
          (rows r c (omega (arith, lt)) lt'))

  IsPicture-suc :
      (n w x row : ℕ) (bytes rest : List ℕ)
      → IsRow w x row bytes
      → IsPicture n w x (row + 1) rest
      → IsPicture (suc n) w x row (bytes ++ rest)
  IsPicture-suc n w x row bytes rest first more = (
    omega (arith, length-append bytes rest, first.0, more.0),
    IsPair-in_rows n w x row bytes rest first more,
  )

  pub pack_rows-IsPicture :
      (n w x row : ℕ)
      → (x + 2 * w) * 4 ≤ pitch
      → (row + n) * pitch ≤ length buf
      → (bytes : List ℕ) × ((pack_rows n cur buf pitch x (2 * w) row ≡ some bytes)
          × IsPicture n w x row bytes)
  unfolding pack_rows
  pack_rows-IsPicture zero w x row hw h =
      ([], (refl, (omega arith, λ r c lt. absurd (omega arith))))
  pack_rows-IsPicture (suc n) w x row hw h =
      let half : (2 * w + 1) / 2 ≡ w = omega arith in
      let here : row * pitch + pitch ≤ length buf = grind (arith, h) in
      let src = row * pitch + x * 4 in
      let (bytes, (e0, pairs)) = pack_cols-IsRow w row x src refl (omega (arith, here, hw)) in
      let (rest, (e1, rows)) = pack_rows-IsPicture n w x (row + 1) hw (omega (arith, h)) in
      let cols : pack_cols ((2 * w + 1) / 2) cur buf row x src ≡ some bytes =
        ap (λ m. pack_cols m cur buf row x src) half ∙ e0 in
      (bytes ++ rest, (rw (cols, e1) refl, IsPicture-suc n w x row bytes rest pairs rows))
