-- ===== src/Drm/Gem/Pins.antt =====
-- src/drm/msdisp_drm_gem.c: the pages of an object stay as long as someone needs them.
use ms912x.Base.{
  ℕ, suc, ◌+◌, ◌/◌, ◌^◌, ◌<◌, ◌≡◌, refl, ◌∙◌, Bool, true, Option, none, some, List, arith, ltb,
  if◌then◌else◌,
}
use ms912x.Base.Int.{ℤ, nonzero}
use ms912x.Drm.Gem.{
  GemObject, Pages, Given, pin_pages, unpin_pages, gem_vmap, gem_vunmap, gem_mmap_offset,
}
use ms912x.Drm.Gem.Steps.{
  present, Kept, Unpinned, after_pin, pin_pages-Pinned, after_map, after_offset, unpinned_lem,
  after_unpin,
}

-- A new object.
abbrev pub fresh : ℕ → Bool → GemObject
fresh size imported = record {
  size = size;
  import_attach = imported;
  pages = none;
  pages_pin_count = 0;
  vmapping = none;
}

-- After `t` calls an object is as given, where `n` pins or mappings were obtained and not yet undone.
pub data Reaches : ℕ → ℕ → GemObject → Type 0 where
  start : (size : ℕ) (imported : Bool) → Reaches 0 0 (fresh size imported)
  pin :
      (t n : ℕ) (o : GemObject) (answer : Pages)
      → Reaches t n o
      → Reaches (suc t) (if nonzero (pin_pages answer o).0 then n else suc n) (pin_pages answer o).1
  unpin :
      (t n : ℕ) (o o' : GemObject) (given : List Given)
      → Reaches t (suc n) o
      → unpin_pages o ≡ some (o', given)
      → Reaches (suc t) n o'
  vmap :
      (t n : ℕ) (o : GemObject) (answer : Pages) (at_ : Option (List ℕ) → ℕ → Option ℕ)
      → Reaches t n o
      → Reaches
          (suc t)
          (if nonzero (gem_vmap answer at_ o).0 then n else suc n)
          (gem_vmap answer at_ o).1
  vunmap :
      (t n : ℕ) (o o' : GemObject) (given : List Given)
      → Reaches t (suc n) o
      → gem_vunmap o ≡ some (o', given)
      → Reaches (suc t) n o'
  mmap_offset :
      (t n : ℕ) (o : GemObject) (answer : Pages) (created : ℤ) (offset : ℕ)
      → Reaches t n o
      → Reaches (suc t) n (gem_mmap_offset answer created offset o).1

pub Reaches-Kept : (t n : ℕ) (o : GemObject) → Reaches t n o → t < 2 ^ 32 → Kept t n o
unfolding gem_vmap gem_vunmap gem_mmap_offset
Reaches-Kept t n o (start size imported) lt = (omega arith, omega arith, refl)
Reaches-Kept t n o (pin t' n' o' answer r) lt =
    after_pin t' n' (pin_pages answer o')
      (pin_pages-Pinned t' n' answer o' lt (Reaches-Kept t' n' o' r (omega (arith, lt))))
Reaches-Kept t n o (unpin t' n' o' o'' given r e) lt =
    after_unpin t' n' o' o'' given (unpin_pages o')
      (unpinned_lem t' n' o' (omega (arith, lt))
        (Reaches-Kept t' (suc n') o' r (omega (arith, lt))))
      e
Reaches-Kept t n o (vmap t' n' o' answer at_ r) lt =
    let (ret, o'') = pin_pages answer o' in
    after_map t' n' (at_ o''.pages ((o''.size + 4095) / 4096)) (ret, o'')
      (pin_pages-Pinned t' n' answer o' lt (Reaches-Kept t' n' o' r (omega (arith, lt))))
Reaches-Kept t n o (vunmap t' n' o' o'' given r e) lt =
    let bare = record o' { vmapping = none } in
    after_unpin t' n' bare o'' given (unpin_pages bare)
      (unpinned_lem t' n' bare (omega (arith, lt))
        (Reaches-Kept t' (suc n') o' r (omega (arith, lt))))
      e
Reaches-Kept t n o (mmap_offset t' n' o' answer created offset r) lt =
    after_offset t' n' created offset (pin_pages answer o')
      (pin_pages-Pinned t' n' answer o' lt (Reaches-Kept t' n' o' r (omega (arith, lt))))

-- An object with suc `n` pins or mappings outstanding, after fewer than 2^32 calls in any order, some
-- of which may have failed: its pages are there; giving up a pin finds them, and gives them back only
-- where it was the last one outstanding.
pub unpin_pages-Unpinned :
    (t n : ℕ) (o : GemObject)
    → Reaches t (suc n) o
    → t < 2 ^ 32
    → (present o.pages ≡ true) × Unpinned t n o (unpin_pages o)
unpin_pages-Unpinned t n o r lt =
    let kept = Reaches-Kept t (suc n) o r lt in
    let some_left : ltb 0 o.pages_pin_count ≡ true = ground (arith, kept.0) in
    (kept.2 ∙ some_left, unpinned_lem t n o lt kept)
