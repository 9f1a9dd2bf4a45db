-- ===== src/Drm/Gem/Free.antt =====
-- src/drm/msdisp_drm_gem.c: what is left when a GEM object is freed.
use ms912x.Base.{
  ℕ, zero, suc, ◌-◌, ◌^◌, ◌<◌, ◌≡◌, refl, Bool, true, false, Option, none, some, List, [], ◌∷◌, map,
  arith, ◌==◌,
}
use ms912x.Drm.Gem.{
  GemObject, Given, put_back, kvfreed, Released, put_rest, unpin_pages, gem_vunmap, free_object,
}
use ms912x.Drm.Gem.Steps.{object, IsPinned, decremented_lem}
use ms912x.Drm.Gem.Pins.{Reaches, Reaches-Kept}

abbrev pub listed : Option (List ℕ) → List (List ℕ)
listed none = []
listed (some ps) = ps ∷ []

abbrev pub array_of : Given → List ℕ
array_of (put_back ps) = ps
array_of (kvfreed ps) = ps

-- Nothing is left, and the array that was there is given back once.
abbrev pub Emptied : Option (List ℕ) → Released → Type 0
Emptied pages r =
    (o' : GemObject) × ((given : List Given) × ((r ≡ some (o', given))
        × (o'.pages ≡ none)
        × (map array_of given ≡ listed pages)))

rest_lem :
    (size : ℕ) (imported : Bool) (pages : Option (List ℕ)) (count : ℕ) (v : Option ℕ)
    → Emptied pages (put_rest (object size imported pages count v, []))
rest_lem size imported none count v = (object size imported none count v, ([], (refl, refl, refl)))
rest_lem size true (some ps) count v =
    (object size true none count v, (kvfreed ps ∷ [], (refl, refl, refl)))
rest_lem size false (some ps) count v =
    (object size false none count v, (put_back ps ∷ [], (refl, refl, refl)))

unpin_more :
    (size : ℕ) (imported : Bool) (ps : List ℕ) (count : ℕ) (v : Option ℕ)
    → suc (suc count) < 2 ^ 32
    → unpin_pages (object size imported (some ps) (suc (suc count)) v)
      ≡ some (object size imported (some ps) (suc count) v, [])
unfolding unpin_pages
unpin_more size imported ps count v lt =
    let z : (suc count == 0) ≡ false = ground arith in rw (decremented_lem (suc count) lt, z) refl

free_more :
    (size : ℕ) (imported : Bool) (ps : List ℕ) (count v : ℕ)
    → suc (suc count) < 2 ^ 32
    → Emptied (some ps) (free_object (object size imported (some ps) (suc (suc count)) (some v)))
unfolding free_object gem_vunmap
free_more size imported ps count v lt =
    rw (unpin_more size imported ps count none lt, free_object)
      (rest_lem size imported (some ps) (suc count) none)

free_lem :
    (t n : ℕ) (size : ℕ) (imported : Bool) (pages : Option (List ℕ)) (count : ℕ) (v : Option ℕ)
    → t < 2 ^ 32
    → IsPinned t n count pages
    → Emptied pages (free_object (object size imported pages count v))
unfolding free_object gem_vunmap unpin_pages
free_lem t n size imported pages count none lt kept = rest_lem size imported pages count none
free_lem t n size imported none zero (some v) lt kept =
    (object size imported none (2 ^ 32 - 1) none, ([], (refl, refl, refl)))
free_lem t n size imported none (suc count) (some v) lt (a, b, c) = absurd (ground (arith, c))
free_lem t n size imported (some ps) zero (some v) lt (a, b, c) = absurd (ground (arith, c))
free_lem t n size true (some ps) (suc zero) (some v) lt kept =
    (object size true none 0 none, (kvfreed ps ∷ [], (refl, refl, refl)))
free_lem t n size false (some ps) (suc zero) (some v) lt kept =
    (object size false none 0 none, (put_back ps ∷ [], (refl, refl, refl)))
free_lem t n size imported (some ps) (suc (suc count)) (some v) lt (a, b, c) =
    free_more size imported ps count v (omega (arith, lt, b))

-- Freeing an object after fewer than 2^32 calls in any order, some of which may have failed and
-- whatever is outstanding: no null pointer is met, no pages are left, and the array of pages, where
-- there is one, is given back exactly once.
pub free_object-Emptied :
    (t n : ℕ) (o : GemObject) → Reaches t n o → t < 2 ^ 32 → Emptied o.pages (free_object o)
free_object-Emptied t n o r lt =
    free_lem t n o.size o.import_attach o.pages o.pages_pin_count o.vmapping lt
      (Reaches-Kept t n o r lt)
