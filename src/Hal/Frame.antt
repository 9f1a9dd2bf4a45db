-- ===== src/Hal/Frame.antt =====
-- src/usb_hal/usb_hal_interface.c: a rectangle of the framebuffer as the bytes of a frame update.
pub mod Header
pub mod Pixels
pub mod Safety
use ms912x.Base.{
  ℕ, zero, suc, ◌+◌, ◌-◌, ◌*◌, ◌/◌, ◌^◌, bit_and, bit_or, Bool, ◌&&◌, Option, none, some, List, [],
  ◌∷◌, ◌++◌, ltb, if◌then◌else◌, get_elem?,
}
use ms912x.Base.Int.{ℤ, pos, negsuc, ◌+ℤ◌, ◌-ℤ◌, shr_ℤ, leb_ℤ, ltb_ℤ, pos_part}
use ms912x.Usb.{success, e_inval}
use ms912x.Hal.Dev.{Cursor, FrameRequest}

-- `usb_hal_frame_header_set`: the eight bytes of the header, for coordinates that are not negative.
unfoldable pub frame_header : ℕ → ℕ → ℕ → ℕ → List ℕ
frame_header x y width height =
    0xff
    ∷ 0x00
    ∷ bit_and (x / 2 ^ 4) 0xff
    ∷ bit_or (bit_and x 0x0f * 2 ^ 4) (bit_and (y / 2 ^ 8) 0x0f)
    ∷ bit_and y 0xff
    ∷ bit_and (width / 2 ^ 4) 0xff
    ∷ bit_or (bit_and width 0x0f * 2 ^ 4) (bit_and (height / 2 ^ 8) 0x0f)
    ∷ bit_and height 0xff
    ∷ []

unfoldable pub end_of_buffer : List ℕ
end_of_buffer = 0xff ∷ 0xc0 ∷ 0x00 ∷ 0x00 ∷ 0x00 ∷ 0x00 ∷ 0x00 ∷ 0x00 ∷ []

-- `usb_hal_range`.
unfoldable pub range : ℤ → ℕ
range (negsuc n) = 0
range (pos n) = if ltb 255 n then 255 else n

pub record Pixel : Type 0 where
  pub b : ℕ
  pub g : ℕ
  pub r : ℕ

-- One channel of the cursor over one of the screen, `a` being the cursor's alpha.
unfoldable pub blend : ℕ → ℕ → ℕ → ℕ
blend a c v = (a * c + (255 - a) * v) / 2 ^ 8

unfoldable pub luma : Pixel → ℤ
luma p = pos ((263 * p.r + 516 * p.g + 97 * p.b) / 2 ^ 10 + 16)

unfoldable pub chroma_u : Pixel → ℤ
chroma_u p = shr_ℤ (pos (450 * p.b) -ℤ pos (152 * p.r + 298 * p.g)) 10 +ℤ pos 128

unfoldable pub chroma_v : Pixel → ℤ
chroma_v p = shr_ℤ (pos (450 * p.r) -ℤ pos (377 * p.g + 73 * p.b)) 10 +ℤ pos 128

-- The four bytes of a pair of pixels.
unfoldable pub encode_pair : Pixel → Pixel → List ℕ
unfolding range luma chroma_u chroma_v
encode_pair p q =
    range (shr_ℤ (chroma_u p +ℤ chroma_u q) 1)
    ∷ range (luma p)
    ∷ range (shr_ℤ (chroma_v p +ℤ chroma_v q) 1)
    ∷ range (luma q)
    ∷ []

infixl 5 ◌>>=?◌
abbrev pub ◌>>=?◌ {ℓ κ} : {A : Type ℓ} {B : Type κ} → Option A → (A → Option B) → Option B
none >>=? f = none
some a >>=? f = f a

-- Three bytes of a buffer; `none` is a read out of its bounds.
unfoldable pub load_pixel : List ℕ → ℕ → Option Pixel
load_pixel buf i = get_elem? buf i >>=? λ b. get_elem? buf (i + 1) >>=? λ g.
    get_elem? buf (i + 2) >>=? λ r. some (record { b = b; g = g; r = r })

-- `lo <= c && c < hi`.
abbrev pub within : ℤ → ℕ → ℕ → Bool
within c lo hi = leb_ℤ (pos lo) c && ltb_ℤ c (pos hi)

abbrev pub cursor_width : ℕ
cursor_width = 64

-- The cursor over a pixel at the cursor's own coordinates.
unfoldable pub overlay : Cursor → ℤ → ℤ → Pixel → Option Pixel
unfolding load_pixel blend
overlay cur cx cy p =
    if within cx cur.x1 cur.x2
    then (let at_ = (pos_part cy * cursor_width + pos_part cx) * 4 in
        load_pixel cur.buf at_ >>=? λ c. get_elem? cur.buf (at_ + 3) >>=? λ a.
        some (record { b = blend a c.b p.b; g = blend a c.g p.g; r = blend a c.r p.r }))
    else some p

-- `in_cursor_row`, with `cy` as the row of the cursor.
abbrev pub in_cursor_row : Cursor → ℕ → Bool
in_cursor_row cur row = cur.valid && within (pos row -ℤ cur.y) cur.y1 cur.y2

-- The body of the column loop: the pixels at `x` and `x + 1` of a row whose bytes begin at `src`.
unfoldable pub pack_pair : Cursor → List ℕ → ℕ → ℕ → ℕ → Option (List ℕ)
pack_pair cur buf row x src = load_pixel buf src >>=? λ p. load_pixel buf (src + 4) >>=? λ q.
    (if in_cursor_row cur row
      then (let cx1 = pos x -ℤ cur.x in
          let cy = pos row -ℤ cur.y in
          overlay cur cx1 cy p >>=? λ p'.
          overlay cur (cx1 +ℤ pos 1) cy q >>=? λ q'. some (encode_pair p' q'))
      else some (encode_pair p q))

-- The column loop, at `n` rounds left.
unfoldable pub pack_cols : ℕ → Cursor → List ℕ → ℕ → ℕ → ℕ → Option (List ℕ)
pack_cols zero cur buf row x src = some []
pack_cols (suc n) cur buf row x src = pack_pair cur buf row x src >>=? λ bytes.
    pack_cols n cur buf row (x + 2) (src + 8) >>=? λ rest. some (bytes ++ rest)

-- The row loop, at `n` rows left; a row takes one round for two columns.
unfoldable pub pack_rows : ℕ → Cursor → List ℕ → ℕ → ℕ → ℕ → ℕ → Option (List ℕ)
pack_rows zero cur buf pitch x1 width row = some []
pack_rows (suc n) cur buf pitch x1 width row =
    pack_cols ((width + 1) / 2) cur buf row x1 (row * pitch + x1 * 4) >>=? λ bytes.
    pack_rows n cur buf pitch x1 width (row + 1) >>=? λ rest. some (bytes ++ rest)

abbrev pub update_len : ℕ → ℕ → ℕ
update_len width height = width * height * 2 + 8 + 8

-- `usb_hal_pack_xrgb8888_rect`, for a rectangle with `x1 <= x2` and `y1 <= y2`; `none` is a read out of
-- the framebuffer's or the cursor's bounds.
unfoldable pub pack_rect :
    Cursor → FrameRequest → List ℕ → ℕ → ℕ → ℕ → ℕ → ℕ → Option (ℤ × FrameRequest)
pack_rect cur request buf pitch x1 y1 x2 y2 =
    if ltb request.alloc_len (update_len (x2 - x1) (y2 - y1))
    then some (e_inval, request)
    else (pack_rows (y2 - y1) cur buf pitch x1 (x2 - x1) y1 >>=? λ bytes. some (
      success,
      record request {
        transfer = frame_header x1 y1 (x2 - x1) (y2 - y1) ++ (bytes ++ end_of_buffer);
        transfer_len = update_len (x2 - x1) (y2 - y1);
      },
    ))
