-- ===== src/Drm/Mode/Laws.antt =====
-- src/drm/msdisp_drm_mode.c: the entries of the tables are the modes that their comments name.
use Prim.Native.String.{String}
use Prim.Native.Char.{code}
use ms912x.Base.{
  ℕ, zero, suc, ◌+◌, ◌*◌, ◌/◌, ◌%◌, ◌≤◌, ◌<◌, ◌≡◌, refl, sym, inl, inr, Bool, true, false, not,
  ◌&&◌, ◌||◌, Option, none, some, List, [], ◌∷◌, ◌++◌, arith, ltb, leb, ◌==◌, if◌then◌else◌, ltb→lt,
  leb→le, ==_iff, Bool-cases,
}
use ms912x.Drm.Cea.Types.{
  DisplayMode, AspectRatio, aspect_4_3, aspect_16_9, aspect_64_27, aspect_256_135, ModeFlag,
  interlace,
}
use ms912x.Drm.Mode.{cea_mode_for_vic}
use ms912x.Drm.Mode.Labels.{Label, labels}

-- The first label of a vic.
pub label_in : ℕ → List Label → Option Label
label_in vic [] = none
label_in vic (l ∷ ls) = if l.vic == vic then some l else label_in vic ls

abbrev pub label_of : ℕ → Option Label
label_of vic = label_in vic labels

abbrev across : AspectRatio → ℕ
across aspect_4_3 = 4
across aspect_16_9 = 16
across aspect_64_27 = 64
across aspect_256_135 = 256

abbrev down : AspectRatio → ℕ
down aspect_4_3 = 3
down aspect_16_9 = 9
down aspect_64_27 = 27
down aspect_256_135 = 135

abbrev is_interlace : ModeFlag → Bool
is_interlace interlace = true
is_interlace _ = false

abbrev has_interlace : List ModeFlag → Bool
has_interlace [] = false
has_interlace (f ∷ fs) = is_interlace f || has_interlace fs

-- Twice the dots of a second: an interlaced frame is two fields.
abbrev fields : DisplayMode → ℕ
fields m = if has_interlace m.flags then 2 else 1

abbrev dots : DisplayMode → ℕ
dots m = m.htotal * m.vtotal

abbrev codes : String → List ℕ
codes String.[] = []
codes (String.◌∷◌ c s) = code c ∷ codes s

-- The decimal digits, four after the first at most.
abbrev digits_below : ℕ → ℕ → List ℕ
digits_below zero n = []
digits_below (suc k) n =
    let rest = digits_below k (n / 10) in if n == 0 then [] else rest ++ (b'0' + n % 10) ∷ []

-- "640x480", and "i" behind it for an interlaced mode.
abbrev label_name : Label → List ℕ
label_name l =
    digits_below 5 l.width
    ++ (b'x' ∷ (digits_below 5 l.height ++ (if l.interlaced then b'i' ∷ [] else [])))

-- The mode's timing is in order, its name and its picture are those on the label, and the label's
-- rate is the nearest whole number of pictures a second.
pub record IsModeOf (l : Label) (m : DisplayMode) : Type 0 where
  pub name : codes m.name ≡ label_name l
  pub width : m.hdisplay ≡ l.width
  pub height : m.vdisplay ≡ l.height
  pub interlaced : has_interlace m.flags ≡ l.interlaced
  pub ratio : (across m.picture_aspect_ratio ≡ l.across) × (down m.picture_aspect_ratio ≡ l.down)
  pub rate_low : 2 * l.rate * dots m ≤ 2000 * m.clock * fields m + dots m
  pub rate_high : 2000 * m.clock * fields m ≤ 2 * l.rate * dots m + dots m
  pub line : (m.hdisplay ≤ m.hsync_start) × (m.hsync_start < m.hsync_end) × (m.hsync_end ≤ m.htotal)
  pub frame :
      (m.vdisplay ≤ m.vsync_start) × (m.vsync_start < m.vsync_end) × (m.vsync_end ≤ m.vtotal)

abbrev same_text : List ℕ → List ℕ → Bool
same_text [] [] = true
same_text (a ∷ as') (b ∷ bs) = (a == b) && same_text as' bs
same_text _ _ = false

abbrev same_bool : Bool → Bool → Bool
same_bool true b = b
same_bool false b = not b

&&-true : (a b : Bool) → (a && b) ≡ true → (a ≡ true) × (b ≡ true)
&&-true true b e = (refl, e)
&&-true false b e = cc

same_text_lem : (xs ys : List ℕ) → same_text xs ys ≡ true → xs ≡ ys
same_text_lem [] [] e = refl
same_text_lem [] (y ∷ ys) e = cc
same_text_lem (x ∷ xs) [] e = cc
same_text_lem (x ∷ xs) (y ∷ ys) e =
    let (h, t) = &&-true (x == y) (same_text xs ys) e in
    let eq : x ≡ y = (==_iff x y).0 h in let tail_eq = same_text_lem xs ys t in cc

same_bool_lem : (a b : Bool) → same_bool a b ≡ true → a ≡ b
same_bool_lem true b e = sym e
same_bool_lem false true e = cc
same_bool_lem false false e = refl

abbrev picture_fits : Label → DisplayMode → Bool
picture_fits l m =
    (m.hdisplay == l.width)
    && ((m.vdisplay == l.height)
        && ((across m.picture_aspect_ratio == l.across) && (down m.picture_aspect_ratio == l.down)))

abbrev rate_fits : Label → DisplayMode → Bool
rate_fits l m =
    leb (2 * l.rate * dots m) (2000 * m.clock * fields m + dots m)
    && leb (2000 * m.clock * fields m) (2 * l.rate * dots m + dots m)

abbrev in_order : ℕ → ℕ → ℕ → ℕ → Bool
in_order a b c d = leb a b && (ltb b c && leb c d)

in_order_lem : (a b c d : ℕ) → in_order a b c d ≡ true → (a ≤ b) × (b < c) × (c ≤ d)
in_order_lem a b c d e = ground arith

abbrev fits : Label → DisplayMode → Bool
fits l m =
    (same_text (codes m.name) (label_name l) && same_bool (has_interlace m.flags) l.interlaced)
    && ((picture_fits l m && rate_fits l m)
        && (in_order m.hdisplay m.hsync_start m.hsync_end m.htotal
            && in_order m.vdisplay m.vsync_start m.vsync_end m.vtotal))

fits-IsModeOf : (l : Label) (m : DisplayMode) → fits l m ≡ true → IsModeOf l m
fits-IsModeOf l m e =
    let (text, rest) = &&-true _ _ e in
    let (name, interlaced) = &&-true _ _ text in
    let (numbers, order) = &&-true _ _ rest in
    let (picture, rate) = &&-true _ _ numbers in
    let (line, frame) = &&-true _ _ order in
    let (width, p) = &&-true _ _ picture in
    let (height, q) = &&-true _ _ p in
    let (horizontal, vertical) = &&-true _ _ q in
    let (low, high) = &&-true _ _ rate in
    record {
      name = same_text_lem _ _ name;
      width = (==_iff _ _).0 width;
      height = (==_iff _ _).0 height;
      interlaced = same_bool_lem _ _ interlaced;
      ratio = ((==_iff _ _).0 horizontal, (==_iff _ _).0 vertical);
      rate_low = leb→le _ _ low;
      rate_high = leb→le _ _ high;
      line = in_order_lem _ _ _ _ line;
      frame = in_order_lem _ _ _ _ frame;
    }

-- A mode for each label, and none elsewhere.
abbrev pub Represents : Option Label → Option DisplayMode → Type 0
Represents none none = Unit {0}
Represents (some l) (some m) = IsModeOf l m
Represents _ _ = ⊥

abbrev represents : Option Label → Option DisplayMode → Bool
represents none none = true
represents (some l) (some m) = fits l m
represents _ _ = false

represents_lem :
    (l : Option Label) (m : Option DisplayMode) → represents l m ≡ true → Represents l m
represents_lem none none e = tt
represents_lem (some l) (some m) e = fits-IsModeOf l m e
represents_lem none (some m) e = cc
represents_lem (some l) none e = cc

all_below : ℕ → Bool
all_below zero = true
all_below (suc vic) = represents (label_of vic) (cea_mode_for_vic vic) && all_below vic

all_below_lem :
    (n vic : ℕ)
    → all_below n ≡ true
    → vic < n
    → represents (label_of vic) (cea_mode_for_vic vic) ≡ true
unfolding all_below
all_below_lem zero vic e lt = absurd (omega arith)
all_below_lem (suc n) vic e lt =
    let (first, rest) = &&-true (represents (label_of n) (cea_mode_for_vic n)) (all_below n) e in
    elim (Bool-cases (vic == n)) [
      | inl same ↦ rw ((==_iff _ _).0 same) first
      | inr differ ↦ all_below_lem n vic rest (ground arith)
    ]

table_fits : all_below 220 ≡ true
unfolding all_below label_in labels cea_mode_for_vic
table_fits = refl

abbrev labels_below : List Label → Bool
labels_below [] = true
labels_below (l ∷ ls) = ltb l.vic 220 && labels_below ls

no_label_in :
    (vic : ℕ) (ls : List Label) → labels_below ls ≡ true → 220 ≤ vic → label_in vic ls ≡ none
unfolding label_in
no_label_in vic [] e le = refl
no_label_in vic (l ∷ ls) e le =
    let (small, rest) = &&-true (ltb l.vic 220) (labels_below ls) e in
    let differ : (l.vic == vic) ≡ false = ground arith in rw differ (no_label_in vic ls rest le)

past_table : (vic : ℕ) → 220 ≤ vic → cea_mode_for_vic vic ≡ none
unfolding cea_mode_for_vic
past_table vic le =
    let a : ltb vic 128 ≡ false = ground arith in
    let b : ltb vic 220 ≡ false = ground arith in
    let c : leb 1 vic ≡ true = ground arith in
    let d : leb 193 vic ≡ true = ground arith in rw (c, a, d, b) refl

labels_small : labels_below labels ≡ true
unfolding labels
labels_small = refl

-- The tables hold a mode for each code that a comment names, in order, with the comment's name,
-- picture, aspect ratio and rate, and none for any other code.
pub cea_mode_for_vic_lem : (vic : ℕ) → Represents (label_of vic) (cea_mode_for_vic vic)
cea_mode_for_vic_lem vic = elim (Bool-cases (ltb vic 220)) [
  | inl lt ↦ represents_lem _ _ (all_below_lem 220 vic table_fits (ltb→lt _ _ lt))
  | inr over ↦
      let le : 220 ≤ vic = ground arith in
      rw (no_label_in vic labels labels_small le, past_table vic le) tt
]
