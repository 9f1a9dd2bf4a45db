-- ===== src/Drm/Dump.antt =====
-- src/drm/msdisp_drm_sysfs.c, msdisp_common_util.c: the file that a framebuffer is dumped to: its name,
-- as the sysfs file takes it, and its bytes.
pub mod Name
pub mod Rows
use ms912x.Base.{
  ℕ, zero, suc, ◌+◌, ◌-◌, ◌*◌, ◌/◌, ◌%◌, ◌^◌, ◌≤◌, ◌<◌, min, max, bit_and, bit_or, ◌≡◌, refl, sym,
  ap, ◌∙◌, subst, ◌≢◌, ◌↔◌, ◌⊎◌, inl, inr, Bool, true, false, not, ◌&&◌, ◌||◌, Option, none, some,
  List, [], ◌∷◌, ◌++◌, map, arith, ltb, leb, ◌==◌, if◌then◌else◌, ltb→lt, lt→ltb, leb→le, ==_iff,
  Bool-cases, Option-cases, length, get_elem?, get_or, set, take, drop, replicate, length-append,
  length-set, get_elem?-set_self, get_elem?-set_ne, get_elem?-lt, get_elem?-bound, get_elem?_past,
  length-take, length-drop, length-replicate, All, All-append,
}
use ms912x.Hal.Frame.{◌>>=?◌}

-- `dump_fb_filename`, 256 bytes, and `dump_fb_flag`.
pub record DumpRequest : Type 0 where
  pub filename : List ℕ
  pub flag : Bool

-- `if ('\n' == name[count - 1])`.
abbrev pub end_line : List ℕ → ℕ → Option ℕ → Option (List ℕ)
end_line name last none = none
end_line name last (some c) = some (if c == 10 then set name last 0 else name)

abbrev pub copied : List ℕ → List ℕ → List ℕ
copied buf name = buf ++ drop (length buf) name

abbrev pub requested : Option (List ℕ) → Option DumpRequest
requested none = none
requested (some name) = some (record { filename = name; flag = true })

-- `msdisp_drm_dump_fb_store` of the bytes that were written; `none` is an access before the array, at
-- no bytes. A name that is too long is dropped.
pub dump_fb_store : List ℕ → DumpRequest → Option DumpRequest
dump_fb_store buf r =
    if ltb 255 (length buf)
    then some r
    else if length buf == 0
    then none
    else requested (
        end_line (copied buf r.filename) (length buf - 1)
          (get_elem? (copied buf r.filename) (length buf - 1)))

-- A number as bytes, the lowest first.
abbrev pub le : ℕ → ℕ → List ℕ
le zero n = []
le (suc k) n = n % 2 ^ 8 ∷ le k (n / 2 ^ 8)

-- `struct bmp_file_header` and `struct bmp_info_header`, packed; the sizes are u32.
abbrev pub file_header : ℕ → ℕ → ℕ → List ℕ
file_header width height cpp =
    le 2 0x4d42
    ++ (le 4 ((width * height * cpp + 0x36) % 2 ^ 32) ++ (le 2 0 ++ (le 2 0 ++ le 4 0x36)))

abbrev pub info_header : ℕ → ℕ → ℕ → List ℕ
info_header width height cpp =
    le 4 40
    ++ (le 4 width
        ++ (le 4 height
            ++ (le 2 1
                ++ (le 2 (cpp * 8)
                    ++ (le 4 0
                        ++ (le 4 (width * height * cpp % 2 ^ 32)
                            ++ (le 4 0 ++ (le 4 0 ++ (le 4 0 ++ le 4 0)))))))))

-- The bytes of row `i`, whose place is a u32; `none` is a read past the buffer.
abbrev pub row : List ℕ → ℕ → ℕ → Option (List ℕ)
row buf len i =
    let at_ = i * len % 2 ^ 32 in
    if leb (at_ + len) (length buf) then some (take len (drop at_ buf)) else none

-- The loop over the rows, from row `n - 1` down to row 0.
pub rows_down : List ℕ → ℕ → ℕ → Option (List ℕ)
rows_down buf len zero = some []
rows_down buf len (suc i) =
    row buf len i >>=? λ bytes. rows_down buf len i >>=? λ rest. some (bytes ++ rest)

-- `i = height - 1` is an `int`: beyond 2^31 it is negative, and no row is written.
abbrev pub row_count : ℕ → ℕ
row_count height = if leb height (2 ^ 31) then height else 0

-- `msdisp_common_save_buf_to_bmp`, once the file is open: the bytes that are written to it.
pub save_buf_to_bmp : List ℕ → ℕ → ℕ → ℕ → Option (List ℕ)
save_buf_to_bmp buf width height cpp =
    rows_down buf (width * cpp % 2 ^ 32) (row_count height) >>=? λ rows.
    some (file_header width height cpp ++ (info_header width height cpp ++ rows))
