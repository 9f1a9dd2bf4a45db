-- ===== src/Hal/Frame/Safety.antt =====
-- src/usb_hal/usb_hal_interface.c: packing a rectangle reads inside the framebuffer and the cursor, and
-- writes as many bytes as the length says.
use ms912x.Base.{
  ℕ, zero, suc, ◌+◌, ◌-◌, ◌*◌, ◌/◌, ◌^◌, ◌≤◌, ◌<◌, ◌≡◌, refl, inl, inr, Bool, true, false, ◌&&◌,
  Option, none, some, List, ap, subst, ◌++◌, arith, ltb, if◌then◌else◌, Bool-cases, length,
  get_elem?, length-append, get_elem?-lt, All, All-append,
}
use ms912x.Base.Int.{ℤ, pos, negsuc, ◌+ℤ◌, ◌-ℤ◌, shr_ℤ, pos_part}
use ms912x.Usb.{success, e_inval}
use ms912x.Hal.Dev.{Cursor, FrameRequest}
use ms912x.Hal.Frame.Header.{frame_header_lem}
use ms912x.Hal.Frame.{
  Pixel, ◌>>=?◌, range, luma, chroma_u, chroma_v, encode_pair, load_pixel, overlay, within,
  in_cursor_row, pack_pair, pack_cols, pack_rows, pack_rect, update_len, frame_header,
  end_of_buffer,
}

-- The cursor's box lies in the cursor, and its buffer holds all of it.
pub record FitsCursor (cur : Cursor) : Type 0 where
  pub columns : cur.x2 ≤ 64
  pub rows : cur.y2 ≤ 64
  pub bytes : 64 * 64 * 4 ≤ length cur.buf

abbrev pub IsByte : ℕ → Type 0
IsByte b = b < 2 ^ 8

range-IsByte : (z : ℤ) → IsByte (range z)
unfolding range
range-IsByte (pos n) = ground arith
range-IsByte (negsuc n) = omega arith

-- A read in bounds returns a value, of which `P` holds.
pub data Returns {A : Type 0} (P : A → Type 0) : Option A → Type 0 where
  returned : {a : A} → P a → Returns P (some a)

pub Returns-bind :
    {A B : Type 0} {P : A → Type 0} {Q : B → Type 0} (f : A → Option B) (o : Option A)
    → Returns P o
    → ((a : A) → P a → Returns Q (f a))
    → Returns Q (o >>=? f)
Returns-bind f none h k = elim h [ ]
Returns-bind f (some a) (returned h) k = k a h

pub Returns-elim :
    {A : Type 0} {P : A → Type 0} (o : Option A) (a : A) → Returns P o → o ≡ some a → P a
Returns-elim none a r e = elim r [ ]
Returns-elim {A} {P} (some b) a (returned p) e =
    let same : b ≡ a = ap (λ (o : Option A). elim o [ none ↦ b | some x ↦ x ]) e in subst P same p

abbrev pub Any : {A : Type 0} → A → Type 0
Any a = a ≡ a

get_elem?-Returns : (buf : List ℕ) (i : ℕ) → i < length buf → Returns Any (get_elem? buf i)
get_elem?-Returns buf i h = let (b, e) = get_elem?-lt buf i h in rw e (returned refl)

pub load_pixel_lem : (buf : List ℕ) (i : ℕ) → i + 3 ≤ length buf → Returns Any (load_pixel buf i)
unfolding load_pixel
load_pixel_lem buf i h =
    Returns-bind _ (get_elem? buf i) (get_elem?-Returns buf i (omega arith)) λ b _.
      Returns-bind _ (get_elem? buf (i + 1)) (get_elem?-Returns buf (i + 1) (omega arith)) λ g _.
        Returns-bind _ (get_elem? buf (i + 2)) (get_elem?-Returns buf (i + 2) (omega arith))
          λ r _. returned refl

within_lt : (c : ℤ) (lo hi : ℕ) → within c lo hi ≡ true → pos_part c < hi
within_lt (pos n) lo hi e = ground arith
within_lt (negsuc n) lo hi e = ground arith

and_right : (a b : Bool) → (a && b) ≡ true → b ≡ true
and_right true b e = e
and_right false b e = absurd (ground arith)

module _ (cur : Cursor) (fits : FitsCursor cur) where
  pub overlay_lem : (cx cy : ℤ) (p : Pixel) → pos_part cy < 64 → Returns Any (overlay cur cx cy p)
  unfolding overlay
  overlay_lem cx cy p h = elim (Bool-cases (within cx cur.x1 cur.x2)) [
    | inr out ↦ rw out (returned refl)
    | inl in_box ↦
        let lt : pos_part cx < 64 =
          omega (arith, within_lt cx cur.x1 cur.x2 in_box, fits.columns) in
        let at_ : ℕ = (pos_part cy * 64 + pos_part cx) * 4 in
        rw in_box (
          Returns-bind _ (load_pixel cur.buf at_)
            (load_pixel_lem cur.buf at_ (omega (arith, fits.bytes)))
            λ c _.
              Returns-bind _ (get_elem? cur.buf (at_ + 3))
                (get_elem?-Returns cur.buf (at_ + 3) (omega (arith, fits.bytes)))
                λ a _. returned refl)
  ]

  -- What a run of rounds writes: so many bytes.
  Bytes : ℕ → List ℕ → Type 0
  Bytes n out = (length out ≡ n) × All IsByte out

  encode_pair_lem : (p q : Pixel) → Bytes 4 (encode_pair p q)
  unfolding Bytes encode_pair
  encode_pair_lem p q = (
    refl,
    (
      range-IsByte (shr_ℤ (chroma_u p +ℤ chroma_u q) 1),
      (
        range-IsByte (luma p),
        (range-IsByte (shr_ℤ (chroma_v p +ℤ chroma_v q) 1), (range-IsByte (luma q), tt)),
      ),
    ),
  )

  pub row_in_cursor : (row : ℕ) → in_cursor_row cur row ≡ true → pos_part (pos row -ℤ cur.y) < 64
  row_in_cursor row e =
      let on = and_right cur.valid (within (pos row -ℤ cur.y) cur.y1 cur.y2) e in
      omega (arith, within_lt (pos row -ℤ cur.y) cur.y1 cur.y2 on, fits.rows)

  pack_pair_lem :
      (buf : List ℕ) (row x src : ℕ)
      → src + 8 ≤ length buf
      → Returns (Bytes 4) (pack_pair cur buf row x src)
  unfolding pack_pair
  pack_pair_lem buf row x src h =
      Returns-bind _ (load_pixel buf src) (load_pixel_lem buf src (omega arith)) λ p _.
        Returns-bind _ (load_pixel buf (src + 4)) (load_pixel_lem buf (src + 4) (omega arith))
          λ q _. (elim (Bool-cases (in_cursor_row cur row)) [
            | inr out ↦ rw out (returned (encode_pair_lem p q))
            | inl on ↦ rw on (
                Returns-bind _ (overlay cur (pos x -ℤ cur.x) (pos row -ℤ cur.y) p)
                  (overlay_lem _ _ p (row_in_cursor row on))
                  λ p' _.
                    Returns-bind _ (overlay cur ((pos x -ℤ cur.x) +ℤ pos 1) (pos row -ℤ cur.y) q)
                      (overlay_lem _ _ q (row_in_cursor row on))
                      λ q' _. returned (encode_pair_lem p' q'))
          ])

  pack_cols_lem :
      (n : ℕ) (buf : List ℕ) (row x src : ℕ)
      → src + 8 * n ≤ length buf
      → Returns (Bytes (4 * n)) (pack_cols n cur buf row x src)
  unfolding pack_cols Bytes
  pack_cols_lem zero buf row x src h = returned (refl, tt)
  pack_cols_lem (suc n) buf row x src h =
      Returns-bind _ (pack_pair cur buf row x src) (pack_pair_lem buf row x src (omega arith))
        λ bytes w.
          Returns-bind _ (pack_cols n cur buf row (x + 2) (src + 8))
            (pack_cols_lem n buf row (x + 2) (src + 8) (omega arith))
            λ rest v.
              returned
                (omega (arith, length-append bytes rest, w.0, v.0), All-append _ bytes rest w.1 v.1)

  -- One row more of `n` rows lies in the buffer.
  first_row : (n row pitch len : ℕ) → (row + suc n) * pitch ≤ len → row * pitch + pitch ≤ len
  first_row n row pitch len h = grind arith

  pack_rows_lem :
      (n : ℕ) (buf : List ℕ) (pitch x1 width row : ℕ)
      → x1 * 4 + 8 * ((width + 1) / 2) ≤ pitch
      → (row + n) * pitch ≤ length buf
      → Returns (Bytes (4 * ((width + 1) / 2) * n)) (pack_rows n cur buf pitch x1 width row)
  unfolding pack_rows Bytes
  pack_rows_lem zero buf pitch x1 width row hw h = returned (omega arith, tt)
  pack_rows_lem (suc n) buf pitch x1 width row hw h =
      let rounds = (width + 1) / 2 in
      let at_ = row * pitch + x1 * 4 in
      Returns-bind _ (pack_cols rounds cur buf row x1 at_)
        (pack_cols_lem rounds buf row x1 at_ (omega (arith, first_row n row pitch (length buf) h)))
        λ bytes w.
          Returns-bind _ (pack_rows n cur buf pitch x1 width (row + 1))
            (pack_rows_lem n buf pitch x1 width (row + 1) hw (omega (arith, h)))
            λ rest v.
              returned
                (omega (arith, length-append bytes rest, w.0, v.0), All-append _ bytes rest w.1 v.1)

  header_IsByte : (x y width height : ℕ) → Bytes 8 (frame_header x y width height)
  unfolding Bytes
  header_IsByte x y width height = rw (frame_header_lem x y width height) (refl, ground arith)

  update_Bytes :
      (k : ℕ) (bytes : List ℕ) (x y width height : ℕ)
      → k ≡ width * height * 2
      → Bytes k bytes
      → Bytes (update_len width height) (frame_header x y width height ++ (bytes ++ end_of_buffer))
  unfolding Bytes frame_header end_of_buffer
  update_Bytes k bytes x y width height e v =
      let hdr = header_IsByte x y width height in
      (
        omega (arith, v.0, length-append bytes end_of_buffer),
        All-append _ (frame_header x y width height) _ hdr.1
            (All-append _ bytes end_of_buffer v.1 (ground arith)),
      )

  -- For a rectangle of even width within the framebuffer, and a cursor whose box lies in its buffer,
  -- packing reads no byte out of bounds. Where the update fits the transfer buffer, what it leaves there
  -- is as long as the transfer length says, and consists of bytes; where it does not, the code is
  -- -EINVAL and the request is unchanged.
  pub pack_rect_safe :
      (request : FrameRequest) (buf : List ℕ) (pitch x1 y1 w n : ℕ)
      → (x1 + 2 * w) * 4 ≤ pitch
      → (y1 + n) * pitch ≤ length buf
      → Returns
          (λ (rtn, r).
            if ltb request.alloc_len (update_len (2 * w) n)
            then (rtn ≡ e_inval) × (r ≡ request)
            else (rtn ≡ success)
              × ((r.done ≡ request.done)
                  × ((length r.transfer ≡ r.transfer_len) × All IsByte r.transfer)))
          (pack_rect cur request buf pitch x1 y1 (x1 + 2 * w) (y1 + n))
  unfolding pack_rect Bytes
  pack_rect_safe request buf pitch x1 y1 w n hw h =
      let width : x1 + 2 * w - x1 ≡ 2 * w = omega arith in
      let half : (2 * w + 1) / 2 ≡ w = omega arith in
      let height : y1 + n - y1 ≡ n = omega arith in
      rw (width, height)
        (elim (Bool-cases (ltb request.alloc_len (update_len (2 * w) n))) [
          | inl small ↦ rw small (returned (refl, refl))
          | inr fits ↦ rw fits (
              Returns-bind _ (pack_rows n cur buf pitch x1 (2 * w) y1)
                (pack_rows_lem n buf pitch x1 (2 * w) y1 (omega arith) h)
                λ bytes v. returned (
                  refl,
                  (
                    refl,
                    update_Bytes (4 * ((2 * w + 1) / 2) * n) bytes x1 y1 (2 * w) n
                        (rw half (omega arith)) v,
                  ),
                ))
        ])
