-- ===== src/Text/Counters.antt =====
-- Lines that hold a counter each: how long they are, and what is read of them.
use ms912x.Base.{
  ℕ, ◌+◌, ◌*◌, ◌^◌, ◌≤◌, ◌<◌, ◌≡◌, refl, ap, ◌∙◌, none, List, [], ◌∷◌, arith, length, length-append,
  All,
}
use ms912x.Text.{counter}
use ms912x.Text.Fits.{joined, length-counter}
use ms912x.Text.Reads.{numbers, IsLabel, numbers-counter}

-- A label with the value of its counter.
abbrev pub Counter : Type 0
Counter = List ℕ × ℕ

abbrev pub counters : List Counter → List (List ℕ)
counters [] = []
counters ((label, n) ∷ more) = counter label n ∷ counters more

abbrev pub values : List Counter → List ℕ
values [] = []
values ((label, n) ∷ more) = n ∷ values more

abbrev pub IsShort : ℕ → Counter → Type 0
IsShort k (label, n) = length label ≤ k

pub length-counters :
    (k : ℕ) (lines : List Counter)
    → All (IsShort k) lines
    → length (joined (counters lines)) ≤ length lines * (k + 21)
length-counters k [] all = omega arith
length-counters k ((label, n) ∷ more) (le, all) = omega (
  arith,
  length-append (counter label n) (joined (counters more)),
  length-counter label n,
  le,
  length-counters k more all,
)

abbrev pub IsRead : Counter → Type 0
IsRead (label, n) = IsLabel label × (n < 2 ^ 63)

pub numbers-counters :
    (lines : List Counter)
    → All IsRead lines
    → numbers none (joined (counters lines)) ≡ values lines
unfolding numbers
numbers-counters [] all = refl
numbers-counters ((label, n) ∷ more) ((is_label, lt), all) =
    numbers-counter label n (joined (counters more)) is_label lt
    ∙ ap (λ ns. n ∷ ns) (numbers-counters more all)

abbrev pub labelled : List (List ℕ) → List ℕ → List Counter
labelled (l ∷ ls) (n ∷ ns) = (l, n) ∷ labelled ls ns
labelled ls ns = []

-- Labels without a colon but at their end.
abbrev pub AreLabels : List (List ℕ) → Type 0
AreLabels ls = All (λ l. IsLabel l × (length l ≤ 24)) ls

AreLabels-All :
    (ls : List (List ℕ)) (ns : List ℕ)
    → AreLabels ls
    → All (IsShort 24) (labelled ls ns) × (All (λ n. n < 2 ^ 63) ns → All IsRead (labelled ls ns))
AreLabels-All [] ns all = (tt, λ small. tt)
AreLabels-All (l ∷ ls) [] all = (tt, λ small. tt)
AreLabels-All (l ∷ ls) (n ∷ ns) ((is_label, short), all) =
    let (shorts, reads) = AreLabels-All ls ns all in
    ((short, shorts), λ (lt, small). ((is_label, lt), reads small))

values-labelled :
    (ls : List (List ℕ)) (ns : List ℕ) → length ls ≡ length ns → values (labelled ls ns) ≡ ns
values-labelled [] [] e = refl
values-labelled [] (n ∷ ns) e = absurd (omega (arith, e))
values-labelled (l ∷ ls) [] e = absurd (omega (arith, e))
values-labelled (l ∷ ls) (n ∷ ns) e = ap (λ t. n ∷ t) (values-labelled ls ns (omega (arith, e)))

length-labelled : (ls : List (List ℕ)) (ns : List ℕ) → length (labelled ls ns) ≤ length ls
length-labelled [] ns = omega arith
length-labelled (l ∷ ls) [] = omega arith
length-labelled (l ∷ ls) (n ∷ ns) = omega (arith, length-labelled ls ns)

-- The text of labelled counters: its length, and what is read of it.
pub labels_lem :
    (ls : List (List ℕ)) (ns : List ℕ)
    → length ls ≡ length ns
    → AreLabels ls
    → (length (joined (counters (labelled ls ns))) ≤ length ls * 45)
      × (All (λ n. n < 2 ^ 63) ns → numbers none (joined (counters (labelled ls ns))) ≡ ns)
labels_lem ls ns e all =
    let (shorts, reads) = AreLabels-All ls ns all in
    (
      omega (arith, length-counters 24 (labelled ls ns) shorts, length-labelled ls ns),
      λ small. numbers-counters (labelled ls ns) (reads small) ∙ values-labelled ls ns e,
    )
