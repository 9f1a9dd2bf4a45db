-- ===== src/Drm/CustomMode.antt =====
-- src/drm/msdisp_usb_drv.c: the module parameter `custom_mode`. A text is its bytes up to the NUL;
-- `strsep` and `sscanf` are those of the kernel's lib/.
pub mod Parse
pub mod Print
pub mod RoundTrip
use ms912x.Base.{
  ℕ, zero, suc, ◌+◌, ◌-◌, ◌*◌, ◌/◌, ◌%◌, ◌^◌, ◌≤◌, ◌<◌, min, max, bit_and, bit_or, ◌≡◌, refl, sym,
  ap, ◌∙◌, subst, ◌≢◌, ◌↔◌, ◌⊎◌, inl, inr, Bool, true, false, not, ◌&&◌, ◌||◌, Option, none, some,
  List, [], ◌∷◌, ◌++◌, map, arith, ltb, leb, ◌==◌, if◌then◌else◌, ltb→lt, lt→ltb, leb→le, ==_iff,
  Bool-cases, Option-cases, length, get_elem?, get_or, set, take, drop, replicate, length-append,
  length-set, get_elem?-set_self, get_elem?-set_ne, get_elem?-lt, get_elem?-bound, get_elem?_past,
  length-take, length-drop, length-replicate, All, All-append,
}

-- `struct custom_mode_stru`.
pub record CustomMode : Type 0 where
  pub width : ℕ
  pub height : ℕ
  pub rate : ℕ
  pub vic : ℕ

abbrev pub max_custom_mode_cnt : ℕ
max_custom_mode_cnt = 16

abbrev pub is_digit : ℕ → Bool
is_digit c = leb b'0' c && leb c b'9'

-- `isspace`, of the ASCII characters.
abbrev pub is_space : ℕ → Bool
is_space c = c == 32 || (leb 9 c && leb c 13)

pub skip_spaces : List ℕ → List ℕ
skip_spaces [] = []
skip_spaces (c ∷ cs) = if is_space c then skip_spaces cs else c ∷ cs

-- The digits from here on, after the number `acc`, and what is behind them.
pub read_digits : ℕ → List ℕ → ℕ × List ℕ
read_digits acc [] = (acc, [])
read_digits acc (c ∷ cs) =
    if is_digit c then read_digits (acc * 10 + (c - b'0')) cs else (acc, c ∷ cs)

-- At least one digit; an `int` keeps the low 32 bits.
abbrev pub unsigned_number : List ℕ → Option (ℕ × List ℕ)
unsigned_number [] = none
unsigned_number (c ∷ cs) =
    if is_digit c
    then some ((read_digits 0 (c ∷ cs)).0 % 2 ^ 32, (read_digits 0 (c ∷ cs)).1)
    else none

abbrev negated : Option (ℕ × List ℕ) → Option (ℕ × List ℕ)
negated none = none
negated (some (n, cs)) = some ((2 ^ 32 - n) % 2 ^ 32, cs)

abbrev pub signed_number : List ℕ → Option (ℕ × List ℕ)
signed_number [] = none
signed_number (c ∷ cs) =
    if c == b'-' then negated (unsigned_number cs) else unsigned_number (c ∷ cs)

-- `%d`, as the 32 bits of the `int`.
pub read_int : List ℕ → Option (ℕ × List ℕ)
read_int cs = signed_number (skip_spaces cs)

-- A character of the format.
pub expect : ℕ → List ℕ → Option (List ℕ)
expect a [] = none
expect a (c ∷ cs) = if c == a then some cs else none

infixl 5 ◌>>=?◌
abbrev pub ◌>>=?◌ : {A B : Type 0} → Option A → (A → Option B) → Option B
none >>=? f = none
some a >>=? f = f a

-- `sscanf(cur, "%d_%dx%d@%d", &vic, &width, &height, &rate)`, where it returns 4.
pub scan_mode : List ℕ → Option (ℕ × ℕ × ℕ × ℕ)
scan_mode cur = read_int cur >>=? λ (vic, s). expect b'_' s >>=? λ s. read_int s >>=? λ (width, s).
    expect b'x' s >>=? λ s. read_int s >>=? λ (height, s).
    expect b'@' s >>=? λ s. read_int s >>=? λ (rate, s). some (vic, width, height, rate)

-- Each field keeps the low bits of its `int`.
abbrev pub mode_of : ℕ → ℕ → ℕ → ℕ → CustomMode
mode_of vic width height rate = record {
  width = width % 2 ^ 16;
  height = height % 2 ^ 16;
  rate = rate % 2 ^ 8;
  vic = vic % 2 ^ 8;
}

-- A write behind the last entry of `mode_arr` is `none`.
abbrev pub append_mode : List CustomMode → CustomMode → Option (List CustomMode)
append_mode modes m =
    if ltb (length modes) max_custom_mode_cnt then some (modes ++ m ∷ []) else none

-- One round of the loop, with what `sscanf` gives.
abbrev pub add_scanned : List CustomMode → Option (ℕ × ℕ × ℕ × ℕ) → Option (List CustomMode)
add_scanned modes none = some modes
add_scanned modes (some (vic, width, height, rate)) =
    if width == 0 || (height == 0 || (rate == 0 || vic == 0))
    then some modes
    else append_mode modes (mode_of vic width height rate)

-- The pieces that `strsep` gives one by one.
abbrev pub prepend : ℕ → List (List ℕ) → List (List ℕ)
prepend c [] = (c ∷ []) ∷ []
prepend c (p ∷ ps) = (c ∷ p) ∷ ps

pub pieces : List ℕ → List (List ℕ)
pieces [] = [] ∷ []
pieces (c ∷ cs) = let rest = pieces cs in if c == b',' then [] ∷ rest else prepend c rest

pub parse_pieces : List CustomMode → List (List ℕ) → Option (List CustomMode)
parse_pieces modes [] = some modes
parse_pieces modes (p ∷ ps) = add_scanned modes (scan_mode p) >>=? λ modes'. parse_pieces modes' ps

-- `parser_custom_mode`: the entries of `mode_arr` that count. `memory` tells whether `kstrdup`
-- succeeds.
pub parser_custom_mode : Bool → Option (List ℕ) → Option (List CustomMode)
parser_custom_mode memory none = some []
parser_custom_mode memory (some text) = if memory then parse_pieces [] (pieces text) else some []
