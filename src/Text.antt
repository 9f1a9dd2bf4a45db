-- ===== src/Text.antt =====
-- The text of a file of sysfs: `snprintf` into a page, as src/usb_hal/usb_hal_sysfs.c and
-- src/drm/msdisp_drm_sysfs.c call it, line by line.
pub mod Fits
pub mod Reads
pub mod Counters
use ms912x.Base.{
  ℕ, zero, suc, ◌+◌, ◌-◌, ◌*◌, ◌/◌, ◌%◌, ◌^◌, ◌≤◌, ◌<◌, min, max, bit_and, bit_or, ◌≡◌, refl, sym,
  ap, ◌∙◌, subst, ◌≢◌, ◌↔◌, ◌⊎◌, inl, inr, Bool, true, false, not, ◌&&◌, ◌||◌, Option, none, some,
  List, [], ◌∷◌, ◌++◌, map, arith, ltb, leb, ◌==◌, if◌then◌else◌, ltb→lt, lt→ltb, leb→le, ==_iff,
  Bool-cases, Option-cases, length, get_elem?, get_or, set, take, drop, replicate, length-append,
  length-set, get_elem?-set_self, get_elem?-set_ne, get_elem?-lt, get_elem?-bound, get_elem?_past,
  length-take, length-drop, length-replicate, take_front, drop_front, take_within, All, All-append,
}
use Prim.Native.Char.{code}
use Prim.Native.String.{String}

abbrev pub codes : String → List ℕ
codes String.[] = []
codes (String.◌∷◌ c s) = code c ∷ codes s

abbrev pub page_size : ℕ
page_size = 4096

-- The text in the page, and `len`.
pub record Page : Type 0 where
  pub text : List ℕ
  pub len : ℕ

-- `len += snprintf(buf + len, PAGE_SIZE - len, ...)` of a text: what does not fit is cut off, with a
-- byte left for the terminator, but counts. A `len` past the page makes the size wrap around: `none`.
abbrev pub print : List ℕ → Page → Option Page
print text page =
    if ltb page_size page.len
    then none
    else some (record {
      text = page.text ++ take (page_size - page.len - 1) text;
      len = page.len + length text;
    })

abbrev pub and_then : Option Page → (Page → Option Page) → Option Page
and_then none rest = none
and_then (some page) rest = rest page

-- The calls one by one.
pub print_all : List (List ℕ) → Page → Option Page
print_all [] page = some page
print_all (text ∷ texts) page = and_then (print text page) (print_all texts)

abbrev pub empty_page : Page
empty_page = record { text = []; len = 0 }

-- The decimal digits of a number, `k` at most.
pub digits : ℕ → ℕ → List ℕ
digits zero n = []
digits (suc k) n =
    let rest = digits k (n / 10) in if n == 0 then [] else rest ++ (b'0' + n % 10) ∷ []

-- `%d` and `%lld` of a number that is not negative, of `k` digits at most.
abbrev pub decimal : ℕ → ℕ → List ℕ
decimal k n = if n == 0 then b'0' ∷ [] else digits k n

-- `%lld` of a `u64`.
abbrev pub lld : ℕ → List ℕ
lld n = if ltb n (2 ^ 63) then decimal 19 n else b'-' ∷ decimal 19 (2 ^ 64 - n)

abbrev pub hex_digit : ℕ → ℕ
hex_digit d = if ltb d 10 then b'0' + d else b'a' + (d - 10)

pub hex_digits : ℕ → ℕ → List ℕ
hex_digits zero n = []
hex_digits (suc k) n =
    let rest = hex_digits k (n / 16) in if n == 0 then [] else rest ++ hex_digit (n % 16) ∷ []

-- `%x` of a `u32`.
abbrev pub hex : ℕ → List ℕ
hex n = if n == 0 then b'0' ∷ [] else hex_digits 8 n

-- A label with a counter, as a line.
abbrev pub counter : List ℕ → ℕ → List ℕ
counter label n = label ++ (lld n ++ 10 ∷ [])

-- A label with a number in hexadecimal, as a line.
abbrev pub hex_line : List ℕ → ℕ → List ℕ
hex_line label n = label ++ (hex n ++ 10 ∷ [])
