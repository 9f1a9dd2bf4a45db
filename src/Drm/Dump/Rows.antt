-- ===== src/Drm/Dump/Rows.antt =====
-- src/drm/msdisp_common_util.c: the file of a dump, read back.
use ms912x.Base.{
  ℕ, zero, suc, ◌+◌, ◌-◌, ◌*◌, ◌%◌, ◌^◌, ◌≤◌, ◌<◌, ◌≡◌, refl, ap, ◌∙◌, true, some, List, [], ◌∷◌,
  ◌++◌, arith, leb, length, take, drop, length-append, length-take, length-drop, take_front,
  drop_front,
}
use native.Mathlib.Decide.{dec_lt}
use ms912x.Drm.Dump.{le, file_header, info_header, row, rows_down, save_buf_to_bmp}

-- The `i`-th row from below in a picture of `n` rows.
abbrev pub row_at : ℕ → ℕ → List ℕ → ℕ → List ℕ
row_at n len rows i = take len (drop ((n - 1 - i) * len) rows)

-- The rows of the buffer, and where each stands among those that are written.
abbrev Placed : List ℕ → ℕ → ℕ → List ℕ → Type 0
Placed buf len n rows =
    (length rows ≡ n * len)
    × ((i : ℕ) → i < n → row_at n len rows i ≡ take len (drop (i * len) buf))

row_there :
    (buf : List ℕ) (len i : ℕ)
    → suc i * len ≤ length buf
    → suc i * len < 2 ^ 32
    → (row buf len i ≡ some (take len (drop (i * len) buf)))
      × (length (take len (drop (i * len) buf)) ≡ len)
row_there buf len i le small =
    let at_ : i * len % 2 ^ 32 ≡ i * len = omega (arith, small) in
    let room : leb (i * len + len) (length buf) ≡ true = ground (arith, le) in
    let left = length-drop (i * len) buf in
    let got = length-take len (drop (i * len) buf) in
    (rw (at_, room) refl, omega (arith, le, left, got))

placed_suc :
    (buf : List ℕ) (len n : ℕ) (rows : List ℕ)
    → length (take len (drop (n * len) buf)) ≡ len
    → ((i : ℕ) → i < n → row_at n len rows i ≡ take len (drop (i * len) buf))
    → (i : ℕ) → i < suc n
    → row_at (suc n) len (take len (drop (n * len) buf) ++ rows) i ≡ take len (drop (i * len) buf)
placed_suc buf len n rows one at_ i lt =
    let bytes = take len (drop (n * len) buf) in
    elim (dec_lt i n) [
      | yes below ↦
          let k : ℕ = n - 1 - i in
          let next : suc n - 1 - i ≡ suc k = omega (arith, below) in
          let past : (suc n - 1 - i) * len ≡ length bytes + k * len =
            ap (λ (t : ℕ). t * len) next ∙ omega (arith, one) in
          ap (take len) (drop_front ((suc n - 1 - i) * len) (k * len) bytes rows past) ∙ at_ i below
      | no last ↦
          let same : n ≡ i = omega (arith, last, lt) in
          let none' : suc n - 1 - i ≡ 0 = omega (arith, same) in
          let first : (suc n - 1 - i) * len ≡ 0 = ap (λ (t : ℕ). t * len) none' ∙ omega arith in
          ap (λ m. take len (drop m (bytes ++ rows))) first
          ∙ take_front len bytes rows one
          ∙ ap (λ (t : ℕ). take len (drop (t * len) buf)) same
    ]

rows_down_lem :
    (buf : List ℕ) (len n : ℕ)
    → n * len ≤ length buf
    → n * len < 2 ^ 32
    → (rows : List ℕ) × (rows_down buf len n ≡ some rows) × Placed buf len n rows
unfolding rows_down
rows_down_lem buf len zero le small = ([], refl, (omega arith, λ i lt. absurd (omega (arith, lt))))
rows_down_lem buf len (suc n) le small =
    let (rows, e, (size, at_)) =
      rows_down_lem buf len n (omega (arith, le)) (omega (arith, small)) in
    let (r, one) = row_there buf len n le small in
    let bytes = take len (drop (n * len) buf) in
    (
      bytes ++ rows,
      rw (r, e) refl,
      (omega (arith, one, size, length-append bytes rows), placed_suc buf len n rows one at_),
    )

-- A number of `k` bytes, the lowest first.
abbrev pub read_le : ℕ → List ℕ → ℕ
read_le zero bytes = 0
read_le (suc k) [] = 0
read_le (suc k) (b ∷ bytes) = b + 2 ^ 8 * read_le k bytes

-- What the fields of a file say.
abbrev pub Says : ℕ → ℕ → ℕ → List ℕ → Type 0
Says width height cpp file =
    (read_le 4 (drop 18 file) ≡ width)
    × (read_le 4 (drop 22 file) ≡ height)
    × (read_le 2 (drop 28 file) ≡ cpp * 8)
    × (read_le 4 (drop 2 file) ≡ length file)

le4_lem : (n : ℕ) (rest : List ℕ) → n < 2 ^ 32 → read_le 4 (le 4 n ++ rest) ≡ n
le4_lem n rest lt = omega (arith, lt)

says_lem :
    (width height cpp : ℕ) (rows : List ℕ)
    → width < 2 ^ 32
    → height < 2 ^ 32
    → cpp * 8 < 2 ^ 16
    → 54 + width * height * cpp < 2 ^ 32
    → length rows ≡ height * (width * cpp)
    → Says width height cpp (file_header width height cpp ++ (info_header width height cpp ++ rows))
says_lem width height cpp rows w h c whole size =
    let total : length rows ≡ width * height * cpp = omega (arith, size) in
    let bytes : width * height * cpp + 0x36 < 2 ^ 32 = omega (arith, whole) in
    let small : (width * height * cpp + 0x36) % 2 ^ 32 ≡ width * height * cpp + 0x36 =
      omega (arith, bytes) in
    (
      le4_lem width [] w,
      le4_lem height [] h,
      omega (arith, c),
      rw small (le4_lem (width * height * cpp + 0x36) [] bytes ∙ omega (arith, total)),
    )

one_row : (height len i : ℕ) → i < height → len ≤ height * len
one_row zero len i lt = absurd (omega (arith, lt))
one_row (suc height) len i lt = omega arith

-- A dump of a picture of 2^31 rows at most, whose rows lie in the buffer, one behind the other, and
-- which fits a file of less than 2^32 bytes, reads no byte past the buffer. The fields of the file give the picture's
-- width, its height, the bits of a pixel and the size of the file, and each row of the buffer
-- stands in the file, the last one first.
pub save_buf_to_bmp_lem :
    (buf : List ℕ) (width height cpp i : ℕ)
    → width < 2 ^ 32
    → height ≤ 2 ^ 31
    → cpp * 8 < 2 ^ 16
    → 54 + width * height * cpp < 2 ^ 32
    → height * (width * cpp) ≤ length buf
    → i < height
    → (file : List ℕ) × (save_buf_to_bmp buf width height cpp ≡ some file)
      × Says width height cpp file
      × (row_at height (width * cpp) (drop 54 file) i
          ≡ take (width * cpp) (drop (i * (width * cpp)) buf))
unfolding save_buf_to_bmp
save_buf_to_bmp_lem buf width height cpp i w h c whole there lt =
    let all : height * (width * cpp) < 2 ^ 32 = omega (arith, whole) in
    let one : width * cpp < 2 ^ 32 = omega (arith, all, one_row height (width * cpp) i lt) in
    let len : width * cpp % 2 ^ 32 ≡ width * cpp = omega (arith, one) in
    let count : leb height (2 ^ 31) ≡ true = ground (arith, h) in
    let (rows, e, (size, at_)) = rows_down_lem buf (width * cpp) height there all in
    let file = file_header width height cpp ++ (info_header width height cpp ++ rows) in
    (
      file,
      rw (len, count, e) refl,
      says_lem width height cpp rows w (omega (arith, h)) c whole size,
      at_ i lt,
    )
