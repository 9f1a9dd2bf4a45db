-- ===== src/Drm/Gem/Steps.antt =====
-- src/drm/msdisp_drm_gem.c: what a pin, a mapping and their ends leave of the count and of the pages.
use ms912x.Base.{
  ℕ, zero, suc, ◌+◌, ◌^◌, ◌≤◌, ◌<◌, ◌≡◌, refl, sym, ap, ◌∙◌, subst, ◌⊎◌, inl, inr, Bool, true,
  false, Option, none, some, List, [], ◌∷◌, arith, ltb, ◌==◌, if◌then◌else◌, Bool-cases,
}
use ms912x.Base.Int.{ℤ, nonzero}
use ms912x.Usb.{success}
use ms912x.Drm.Gem.{
  GemObject, Pages, map_at, with_offset, is_err, array, Given, put_back, kvfreed, Released,
  incremented, decremented, pin_pages, unpin_pages,
}

abbrev pub present : Option (List ℕ) → Bool
present none = false
present (some ps) = true

-- The count covers what is outstanding, and there are pages just where it is not 0.
abbrev pub IsPinned : ℕ → ℕ → ℕ → Option (List ℕ) → Type 0
IsPinned t n count pages = (n ≤ count) × (count ≤ t) × (present pages ≡ ltb 0 count)

incremented_lem : (c : ℕ) → c + 1 < 2 ^ 32 → incremented c ≡ suc c
incremented_lem c lt = omega arith

pub decremented_lem : (c : ℕ) → suc c < 2 ^ 32 → decremented (suc c) ≡ c
decremented_lem c lt = omega arith

abbrev pub object : ℕ → Bool → Option (List ℕ) → ℕ → Option ℕ → GemObject
object size imported pages count v = record {
  size = size;
  import_attach = imported;
  pages = pages;
  pages_pin_count = count;
  vmapping = v;
}

abbrev pub Kept : ℕ → ℕ → GemObject → Type 0
Kept t n o = IsPinned t n o.pages_pin_count o.pages

-- A pin that fails changes nothing; one that is granted is counted.
abbrev pub Pinned : ℕ → ℕ → ℤ × GemObject → Type 0
Pinned t n (ret, o) =
    ((nonzero ret ≡ true) × Kept t n o) ⊎ ((ret ≡ success) × Kept (suc t) (suc n) o)

pin_lem :
    (t n : ℕ) (answer : Pages) (size : ℕ) (imported : Bool) (pages : Option (List ℕ)) (count : ℕ)
    (v : Option ℕ)
    → suc t < 2 ^ 32
    → IsPinned t n count pages
    → Pinned t n (pin_pages answer (object size imported pages count v))
unfolding pin_pages
pin_lem t n (is_err e) size imported none zero v lt (a, b, c) = inl (refl, (a, b, refl))
pin_lem t n (array ps) size imported none zero v lt (a, b, c) =
    inr (refl, (omega (arith, a), omega arith, refl))
pin_lem t n answer size imported (some ps) zero v lt (a, b, c) = absurd (ground (arith, c))
pin_lem t n answer size imported pages (suc count) v lt (a, b, c) =
    let z : (suc count == 0) ≡ false = ground arith in
    let some_left : ltb 0 (suc (suc count)) ≡ true = ground arith in
    let there : present pages ≡ true = ground (arith, c) in
    rw (z, incremented_lem (suc count) (omega (arith, lt, b)))
      (inr (refl, (omega (arith, a), omega (arith, b), there ∙ sym some_left)))

-- Giving a pin back finds the pages, and only the last one gives them back.
abbrev pub Unpinned : ℕ → ℕ → GemObject → Released → Type 0
Unpinned t n o r =
    (o' : GemObject) × ((given : List Given) × ((r ≡ some (o', given))
        × Kept t n o'
        × ((given ≡ []) ⊎ ((n ≡ 0) × (o'.pages ≡ none)))))

unpin_lem :
    (t n : ℕ) (size : ℕ) (imported : Bool) (pages : Option (List ℕ)) (count : ℕ) (v : Option ℕ)
    → t < 2 ^ 32
    → IsPinned t (suc n) count pages
    → Unpinned t n
        (object size imported pages count v)
        (unpin_pages (object size imported pages count v))
unfolding unpin_pages
unpin_lem t n size imported pages zero v lt (a, b, c) = absurd (omega (arith, a))
unpin_lem t n size imported none (suc count) v lt (a, b, c) = absurd (ground (arith, c))
unpin_lem t n size true (some ps) (suc zero) v lt (a, b, c) =
    let z : n ≡ 0 = omega (arith, a) in
    (
      object size true none 0 v,
      (kvfreed ps ∷ [], (refl, (omega (arith, a), omega arith, refl), inr (z, refl))),
    )
unpin_lem t n size false (some ps) (suc zero) v lt (a, b, c) =
    let z : n ≡ 0 = omega (arith, a) in
    (
      object size false none 0 v,
      (put_back ps ∷ [], (refl, (omega (arith, a), omega arith, refl), inr (z, refl))),
    )
unpin_lem t n size imported (some ps) (suc (suc count)) v lt (a, b, c) =
    let z : (suc count == 0) ≡ false = ground arith in
    let some_left : ltb 0 (suc count) ≡ true = ground arith in
    rw (decremented_lem (suc count) (omega (arith, lt, b)), z)
      (
        object size imported (some ps) (suc count) v,
        ([], (refl, (omega (arith, a), omega (arith, b), sym some_left), inl refl)),
      )

pub weaken :
    (t n count : ℕ) (pages : Option (List ℕ))
    → IsPinned t n count pages
    → IsPinned (suc t) n count pages
weaken t n count pages (a, b, c) = (a, omega (arith, b), c)

pub after_pin :
    (t n : ℕ) (r : ℤ × GemObject)
    → Pinned t n r
    → Kept (suc t) (if nonzero r.0 then n else suc n) r.1
after_pin t n (ret, o) (inl (bad, kept)) = rw bad (weaken t n o.pages_pin_count o.pages kept)
after_pin t n (ret, o) (inr (good, kept)) = rw good kept

pub pin_pages-Pinned :
    (t n : ℕ) (answer : Pages) (o : GemObject)
    → suc t < 2 ^ 32
    → Kept t n o
    → Pinned t n (pin_pages answer o)
pin_pages-Pinned t n answer o lt kept =
    pin_lem t n answer o.size o.import_attach o.pages o.pages_pin_count o.vmapping lt kept

pub after_map :
    (t n : ℕ) (at_ : Option ℕ) (r : ℤ × GemObject)
    → Pinned t n r
    → Kept (suc t) (if nonzero (map_at at_ r).0 then n else suc n) (map_at at_ r).1
after_map t n at_ (ret, o) (inl (bad, kept)) =
    rw (bad, bad) (weaken t n o.pages_pin_count o.pages kept)
after_map t n none (ret, o) (inr (good, (a, b, c))) = rw good (omega (arith, a), b, c)
after_map t n (some v) (ret, o) (inr (good, kept)) = rw good kept

pub after_offset :
    (t n : ℕ) (created : ℤ) (offset : ℕ) (r : ℤ × GemObject)
    → Pinned t n r
    → Kept (suc t) n (with_offset created offset r).1
after_offset t n created offset (ret, o) (inl (bad, kept)) =
    rw bad (weaken t n o.pages_pin_count o.pages kept)
after_offset t n created offset (ret, o) (inr (good, (a, b, c))) =
    rw good (elim (Bool-cases (nonzero created)) [
      | inl e ↦ rw e (omega (arith, a), b, c)
      | inr e ↦ rw e (omega (arith, a), b, c)
    ])

pub unpinned_lem :
    (t n : ℕ) (o : GemObject) → t < 2 ^ 32 → Kept t (suc n) o → Unpinned t n o (unpin_pages o)
unpinned_lem t n o lt kept =
    unpin_lem t n o.size o.import_attach o.pages o.pages_pin_count o.vmapping lt kept

pub after_unpin :
    (t n : ℕ) (o o' : GemObject) (given : List Given) (r : Released)
    → Unpinned t n o r
    → r ≡ some (o', given)
    → Kept (suc t) n o'
after_unpin t n o o' given r (o'', (given', (e, kept, last))) e' =
    let same : o'' ≡ o' =
      ap (λ (x : Released). elim x [ none ↦ o'' | some y ↦ y.0 ]) (sym e ∙ e') in
    subst (Kept (suc t) n) same (weaken t n o''.pages_pin_count o''.pages kept)
