-- ===== src/Drm/Dump/Name.antt =====
-- src/drm/msdisp_drm_sysfs.c: the name that a dump's file gets.
use ms912x.Base.{
  ℕ, zero, suc, ◌-◌, ◌≤◌, ◌<◌, ◌≡◌, refl, ap, ◌∙◌, ◌≢◌, Bool, true, false, some, List, [], ◌∷◌,
  ◌++◌, arith, ltb, ◌==◌, if◌then◌else◌, length, get_elem?, set, drop, length-append, All,
}
use mathlib.Core.List.{append_assoc, append-nil}
use ms912x.Drm.Dump.{DumpRequest, copied, dump_fb_store}

-- The C string in an array.
pub c_string : List ℕ → List ℕ
c_string [] = []
c_string (c ∷ cs) = if c == 0 then [] else c ∷ c_string cs

-- A byte of a name: neither the end of the string nor that of the line.
abbrev pub IsPlain : ℕ → Type 0
IsPlain c = (c ≢ 0) × (c ≢ 10)

c_string-append :
    (path rest : List ℕ) → All IsPlain path → c_string (path ++ rest) ≡ path ++ c_string rest
unfolding c_string
c_string-append [] rest plain = refl
c_string-append (c ∷ path) rest ((nonzero', line), plain) =
    ground (arith, c_string-append path rest plain)

middle : (path rest : List ℕ) (c : ℕ) → get_elem? (path ++ c ∷ rest) (length path) ≡ some c
middle [] rest c = refl
middle (x ∷ path) rest c = middle path rest c

set_middle :
    (path rest : List ℕ) (c v : ℕ) → set (path ++ c ∷ rest) (length path) v ≡ path ++ v ∷ rest
set_middle [] rest c v = refl
set_middle (x ∷ path) rest c v = ap (λ t. x ∷ t) (set_middle path rest c v)

plain_at :
    (path rest : List ℕ) (k : ℕ)
    → k < length path
    → All IsPlain path
    → (c : ℕ) × (get_elem? (path ++ rest) k ≡ some c) × (c ≢ 10)
plain_at [] rest k lt plain = absurd (omega (arith, lt))
plain_at (c ∷ path) rest zero lt (p, plain) = (c, refl, p.1)
plain_at (c ∷ path) rest (suc k) lt (p, plain) = plain_at path rest k (omega (arith, lt)) plain

-- With a line's end.
line_lem :
    (path old : List ℕ) (flag : Bool)
    → length path ≤ 254
    → dump_fb_store (path ++ 10 ∷ []) (record { filename = old; flag = flag })
      ≡ some (record { filename = path ++ 0 ∷ drop (suc (length path)) old; flag = true })
unfolding dump_fb_store
line_lem path old flag le =
    let len : length (path ++ 10 ∷ []) ≡ suc (length path) =
      omega (arith, length-append path (10 ∷ [])) in
    let rest = drop (suc (length path)) old in
    let whole : copied (path ++ 10 ∷ []) old ≡ path ++ 10 ∷ rest =
      append_assoc path (10 ∷ []) (drop (length (path ++ 10 ∷ [])) old)
      ∙ ap (λ n. path ++ 10 ∷ drop n old) len in
    let small : ltb 255 (length (path ++ 10 ∷ [])) ≡ false = ground (arith, len, le) in
    let some_ : (length (path ++ 10 ∷ []) == 0) ≡ false = ground (arith, len) in
    let last : length (path ++ 10 ∷ []) - 1 ≡ length path = omega (arith, len) in
    rw (small, some_, last, whole, middle path rest 10, set_middle path rest 10 0) refl

bare_lem :
    (path old : List ℕ) (flag : Bool)
    → 0 < length path
    → length path ≤ 255
    → All IsPlain path
    → dump_fb_store path (record { filename = old; flag = flag })
      ≡ some (record { filename = path ++ drop (length path) old; flag = true })
unfolding dump_fb_store
bare_lem path old flag lt le plain =
    let rest = drop (length path) old in
    let (c, at_, differs) = plain_at path rest (length path - 1) (omega (arith, lt)) plain in
    let small : ltb 255 (length path) ≡ false = ground (arith, le) in
    let some_ : (length path == 0) ≡ false = ground (arith, lt) in
    let other : (c == 10) ≡ false = ground (arith, differs) in rw (small, some_, at_, other) refl

c_string-plain : (path rest : List ℕ) → All IsPlain path → c_string (path ++ 0 ∷ rest) ≡ path
unfolding c_string
c_string-plain path rest plain = c_string-append path (0 ∷ rest) plain ∙ append-nil path

-- Writing a name of 1 to 254 bytes, none of which ends a string or a line, asks for a dump. With a
-- line's end behind it the name is stored as it is; without one the string goes on with what the
-- array held behind the name's length.
pub dump_fb_store_lem :
    (path old : List ℕ) (flag : Bool)
    → 0 < length path
    → length path ≤ 254
    → All IsPlain path
    → ((r : DumpRequest) × ((dump_fb_store
              (path ++ 10 ∷ [])
              (record { filename = old; flag = flag })
            ≡ some r)
          × (r.flag ≡ true)
          × (c_string r.filename ≡ path)))
      × ((r : DumpRequest) × ((dump_fb_store path (record { filename = old; flag = flag }) ≡ some r)
            × (r.flag ≡ true)
            × (c_string r.filename ≡ path ++ c_string (drop (length path) old))))
dump_fb_store_lem path old flag lt le plain = (
  (
    record { filename = path ++ 0 ∷ drop (suc (length path)) old; flag = true },
    (line_lem path old flag le, refl, c_string-plain path (drop (suc (length path)) old) plain),
  ),
  (
    record { filename = path ++ drop (length path) old; flag = true },
    (
      bare_lem path old flag lt (omega (arith, le)) plain,
      refl,
      c_string-append path (drop (length path) old) plain,
    ),
  ),
)
