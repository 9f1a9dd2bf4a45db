-- ===== src/Hal/Traffic/Queue.antt =====
-- src/usb_hal/usb_hal_interface.c: the work queue against the completions of the two requests.
use ms912x.Base.{
  ℕ, zero, suc, ◌+◌, ◌≤◌, ◌<◌, ◌≡◌, refl, ap, ◌∙◌, ◌≢◌, Bool, true, false, Option, none, some, List,
  [], ◌∷◌, arith, length,
}
use native.Mathlib.Decide.{dec_lt}
use ms912x.Hal.Thread.{queue_work}
use ms912x.Hal.Traffic.{remove, count}

-- A request that is not complete is in use.
abbrev pub busy : Bool → ℕ
busy true = 0
busy false = 1

-- With the completions of the two requests: a request is queued once if it is in use, and not at all
-- if it is free; nothing else is queued.
abbrev pub Tracked : Bool → Bool → List ℕ → Type 0
Tracked a b q = (count 0 q ≡ busy a) × (count 1 q ≡ busy b) × (length q ≡ count 0 q + count 1 q)

-- What an operation leaves of the completions, and which request it queues.
abbrev pub Effect : Bool → Bool → Bool → Bool → Option ℕ → Type 0
Effect a b a' b' none = (a' ≡ a) × (b' ≡ b)
Effect a b a' b' (some zero) = (a ≡ true) × (a' ≡ false) × (b' ≡ b)
Effect a b a' b' (some (suc zero)) = (b ≡ true) × (b' ≡ false) × (a' ≡ a)
Effect a b a' b' (some (suc (suc i))) = ⊥

pub effect_lem :
    (a b a' b' : Bool) (w : Option ℕ) (q : List ℕ)
    → Effect a b a' b' w
    → Tracked a b q
    → Tracked a' b' (queue_work w q)
unfolding count
effect_lem a b a' b' none q (ea, eb) t = rw (ea, eb) t
effect_lem a b a' b' (some zero) q (free, used, eb) (t0, t1, t2) =
    let z : count 0 q ≡ 0 = t0 ∙ ap busy free in
    rw (used, eb) (omega (arith, z), t1, omega (arith, t2))
effect_lem a b a' b' (some (suc zero)) q (free, used, ea) (t0, t1, t2) =
    let z : count 1 q ≡ 0 = t1 ∙ ap busy free in
    rw (used, ea) (t0, omega (arith, z), omega (arith, t2))
effect_lem a b a' b' (some (suc (suc i))) q h t = absurd h

pub count-remove_self :
    (i : ℕ) (q : List ℕ) → 0 < count i q → suc (count i (remove i q)) ≡ count i q
unfolding count remove
count-remove_self i [] lt = absurd (omega arith)
count-remove_self i (x ∷ xs) lt = ground (arith, count-remove_self i xs)

pub count-remove_ne : (i j : ℕ) (q : List ℕ) → i ≢ j → count j (remove i q) ≡ count j q
unfolding count remove
count-remove_ne i j [] ne = refl
count-remove_ne i j (x ∷ xs) ne = ground (arith, count-remove_ne i j xs)

pub length-remove : (i : ℕ) (q : List ℕ) → 0 < count i q → suc (length (remove i q)) ≡ length q
unfolding count remove
length-remove i [] lt = absurd (omega arith)
length-remove i (x ∷ xs) lt = ground (arith, length-remove i xs)

-- The worker completes one request and leaves the other as it is.
abbrev pub Freed : Bool → Bool → Bool → Bool → ℕ → Type 0
Freed a b a' b' zero = (a' ≡ true) × (b' ≡ b)
Freed a b a' b' (suc zero) = (b' ≡ true) × (a' ≡ a)
Freed a b a' b' (suc (suc i)) = ⊥

busy_bound : (a : Bool) → busy a ≤ 1
busy_bound true = omega arith
busy_bound false = omega arith

pub worked_lem :
    (a b a' b' : Bool) (i : ℕ) (q : List ℕ)
    → 0 < count i q
    → Freed a b a' b' i
    → Tracked a b q
    → Tracked a' b' (remove i q)
worked_lem a b a' b' zero q lt (free, other) (t0, t1, t2) =
    let mine = count-remove_self 0 q lt in
    let rest = count-remove_ne 0 1 q (λ e. omega arith) in
    let len = length-remove 0 q lt in
    rw (free, other)
      (omega (arith, mine, t0, busy_bound a), rest ∙ t1, omega (arith, mine, rest, len, t2))
worked_lem a b a' b' (suc zero) q lt (free, other) (t0, t1, t2) =
    let mine = count-remove_self 1 q lt in
    let rest = count-remove_ne 1 0 q (λ e. omega arith) in
    let len = length-remove 1 q lt in
    rw (free, other)
      (rest ∙ t0, omega (arith, mine, t1, busy_bound b), omega (arith, mine, rest, len, t2))
worked_lem a b a' b' (suc (suc i)) q lt h t = absurd h

counts_le : (i : ℕ) (q : List ℕ) → 2 ≤ i → count 0 q + count 1 q + count i q ≤ length q
unfolding count
counts_le i [] le = omega arith
counts_le i (x ∷ xs) le = ground (arith, counts_le i xs le)

-- Nothing but the two requests is queued.
pub queued_bound : (a b : Bool) (i : ℕ) (q : List ℕ) → 0 < count i q → Tracked a b q → i < 2
queued_bound a b i q lt t = elim (dec_lt i 2) [
  | yes small ↦ small
  | no large ↦ let le : 2 ≤ i = omega arith in absurd (omega (arith, counts_le i q le, t.2))
]

pub remove_head : (i : ℕ) (q : List ℕ) → remove i (i ∷ q) ≡ q
unfolding remove
remove_head i q = ground arith

pub count_head : (i : ℕ) (q : List ℕ) → 0 < count i (i ∷ q)
unfolding count
count_head i q = ground arith

free_of : (a : Bool) → 0 ≡ busy a → a ≡ true
free_of true e = refl
free_of false e = absurd (omega arith)

pub Tracked-nil : (a b : Bool) → Tracked a b [] → (a ≡ true) × (b ≡ true)
unfolding count
Tracked-nil a b (t0, t1, t2) = (free_of a t0, free_of b t1)
