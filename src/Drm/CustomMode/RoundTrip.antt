-- ===== src/Drm/CustomMode/RoundTrip.antt =====
-- src/drm/msdisp_usb_drv.c: parsing the parameter in its documented form.
use mathlib.Core.List.{append_assoc}
use ms912x.Base.{
  suc, ◌+◌, ◌%◌, ◌^◌, ◌≤◌, ◌<◌, ◌≡◌, refl, sym, ◌∙◌, inl, inr, true, false, Option, none, some,
  List, [], ◌∷◌, ◌++◌, arith, ltb, leb, ◌==◌, if◌then◌else◌, Bool-cases, length, length-append, All,
  All-append,
}
use ms912x.Drm.CustomMode.{
  CustomMode, max_custom_mode_cnt, append_mode, scan_mode, add_scanned, pieces, parse_pieces,
  parser_custom_mode,
}
use ms912x.Drm.CustomMode.Print.{digits, print_mode, print_modes}
use ms912x.Drm.CustomMode.Parse.{
  IsWritten, NoComma, digits-NoComma, pieces_more, pieces_last, scan-print_mode,
}

print_mode-NoComma : (m : CustomMode) → NoComma (print_mode m)
unfolding print_mode
print_mode-NoComma m =
    let rate = digits-NoComma 3 m.rate in
    let height =
      All-append _ (digits 5 m.height) (b'@' ∷ digits 3 m.rate) (digits-NoComma 5 m.height)
        (refl, rate) in
    let width =
      All-append _ (digits 5 m.width) (b'x' ∷ (digits 5 m.height ++ (b'@' ∷ digits 3 m.rate)))
        (digits-NoComma 5 m.width) (refl, height) in
    All-append _ (digits 3 m.vic) _ (digits-NoComma 3 m.vic) (refl, width)

add_written :
    (done : List CustomMode) (m : CustomMode)
    → IsWritten m
    → add_scanned done (scan_mode (print_mode m)) ≡ append_mode done m
add_written done m v =
    let w : (m.width == 0) ≡ false = ground (arith, v.width) in
    let h : (m.height == 0) ≡ false = ground (arith, v.height) in
    let r : (m.rate == 0) ≡ false = ground (arith, v.rate) in
    let c : (m.vic == 0) ≡ false = ground (arith, v.vic) in
    let w' : m.width % 2 ^ 16 ≡ m.width = omega (arith, v.width) in
    let h' : m.height % 2 ^ 16 ≡ m.height = omega (arith, v.height) in
    let r' : m.rate % 2 ^ 8 ≡ m.rate = omega (arith, v.rate) in
    let c' : m.vic % 2 ^ 8 ≡ m.vic = omega (arith, v.vic) in
    rw (scan-print_mode m v, w, h, r, c, w', h', r', c') refl

-- What the parser makes of the text, with `done` entries before it.
abbrev parsed : List CustomMode → List CustomMode → Option (List CustomMode)
parsed done ms =
    if leb (length done + length ms) max_custom_mode_cnt then some (done ++ ms) else none

parsed_full :
    (done : List CustomMode) (m : CustomMode) (ms : List CustomMode)
    → ltb (length done) max_custom_mode_cnt ≡ false
    → parsed done (m ∷ ms) ≡ none
parsed_full done m ms full =
    let over : leb (length done + suc (length ms)) max_custom_mode_cnt ≡ false = ground arith in
    rw over refl

parsed_more :
    (done : List CustomMode) (m : CustomMode) (ms : List CustomMode)
    → parsed (done ++ m ∷ []) ms ≡ parsed done (m ∷ ms)
parsed_more done m ms =
    let n : length (done ++ m ∷ []) + length ms ≡ length done + suc (length ms) =
      omega (arith, length-append done (m ∷ [])) in
    rw (n, append_assoc done (m ∷ []) ms) refl

parse_lem :
    (done : List CustomMode) (m : CustomMode) (ms : List CustomMode)
    → All IsWritten (m ∷ ms)
    → parse_pieces done (pieces (print_modes m ms)) ≡ parsed done (m ∷ ms)
unfolding print_modes parse_pieces
parse_lem done m [] v =
    rw (pieces_last (print_mode m) (print_mode-NoComma m), add_written done m v.0)
      (elim (Bool-cases (ltb (length done) max_custom_mode_cnt)) [
        | inr full ↦ rw full (sym (parsed_full done m [] full))
        | inl room ↦
            let fits : leb (length done + 1) max_custom_mode_cnt ≡ true = ground arith in
            rw (room, fits) refl
      ])
parse_lem done m (n ∷ ns) v =
    rw
      (pieces_more (print_mode m) (print_modes n ns) (print_mode-NoComma m), add_written done m v.0)
      (elim (Bool-cases (ltb (length done) max_custom_mode_cnt)) [
        | inr full ↦ rw full (sym (parsed_full done m (n ∷ ns) full))
        | inl room ↦ rw room (parse_lem (done ++ m ∷ []) n ns v.1 ∙ parsed_more done m (n ∷ ns))
      ])

-- A parameter in its documented form, "<vic>_<x>x<y>@<refr>" with commas between the modes and fields
-- that are positive and fit their types, is read as the modes that are written, in order, if they
-- are 16 at most. With more modes than that the parser writes behind the end of its array.
pub parser_custom_mode-print_modes :
    (m : CustomMode) (ms : List CustomMode)
    → All IsWritten (m ∷ ms)
    → (length (m ∷ ms) ≤ 16 → parser_custom_mode true (some (print_modes m ms)) ≡ some (m ∷ ms))
      × (16 < length (m ∷ ms) → parser_custom_mode true (some (print_modes m ms)) ≡ none)
unfolding parser_custom_mode
parser_custom_mode-print_modes m ms v = (
  λ fits.
      let room : leb (0 + suc (length ms)) max_custom_mode_cnt ≡ true = ground arith in
      parse_lem [] m ms v ∙ rw room refl,
  λ past.
      let over : leb (0 + suc (length ms)) max_custom_mode_cnt ≡ false = ground arith in
      parse_lem [] m ms v ∙ rw over refl,
)
