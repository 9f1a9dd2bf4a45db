-- ===== src/Drm/Modeset/Freed.antt =====
-- src/drm/msdisp_drm_modeset.c: what a failed set-up gives to kfree.
use ms912x.Base.{
  ℕ, zero, suc, ◌+◌, ◌<◌, ◌≡◌, refl, sym, ap, ◌∙◌, ◌≢◌, ◌⊎◌, inl, inr, Bool, true, false, not, ◌||◌,
  List, [], ◌∷◌, ◌++◌, arith, if◌then◌else◌, Bool-cases,
}
use mathlib.Core.List.{append-nil, append_assoc}
use ms912x.Base.Int.{nonzero}
use ms912x.Usb.{success, e_nomem}
use ms912x.Drm.Modeset.{
  Object, crtc_of, primary_of, cursor_of, encoder_of, connector_of, Pointer, unset, null, at_,
  InitAnswers, PipelineAnswers, made, crtc_init, connector_init, Kept, Modeset, modeset_from,
  modeset_init,
}

-- The first step of a pipeline that fails, if one does.
pub data Outcome : Type 0 where
  crtc_fails encoder_fails connector_fails all_made : Outcome

abbrev pub fails : InitAnswers → Bool
fails a = not a.memory || nonzero a.init

abbrev pub outcome : PipelineAnswers → Outcome
outcome a =
    if not a.crtc_memory || (fails a.primary || fails a.cursor)
    then crtc_fails
    else if fails a.encoder
    then encoder_fails
    else if a.connector_memory
    then all_made
    else connector_fails

abbrev pub own : ℕ → Kept
own i = record {
  crtc = at_ (crtc_of i);
  encoder = at_ (encoder_of i);
  connector = at_ (connector_of i);
}

-- The `n` pipelines from `i` on, each with its own objects.
abbrev pub set_from : ℕ → ℕ → List Kept
set_from i zero = []
set_from i (suc n) = own i ∷ set_from (suc i) n

abbrev pub AllMade : (ℕ → PipelineAnswers) → ℕ → ℕ → Type 0
AllMade a i zero = Unit {0}
AllMade a i (suc n) = (outcome (a i) ≡ all_made) × AllMade a (suc i) n

-- A variable that pipeline `i` has not reached: the object of the pipeline before.
abbrev pub previous : (ℕ → Object) → ℕ → Pointer
previous f zero = unset
previous f (suc i) = at_ (f i)

abbrev pub freed_at : Outcome → ℕ → List Pointer
freed_at crtc_fails i = null ∷ previous encoder_of i ∷ previous connector_of i ∷ []
freed_at encoder_fails i = at_ (crtc_of i) ∷ null ∷ previous connector_of i ∷ []
freed_at connector_fails i = at_ (crtc_of i) ∷ at_ (encoder_of i) ∷ null ∷ []
freed_at all_made i = []

-- From pipeline `i` on: all are set up, or `m` is the first one that is not.
abbrev pub SetUp : (ℕ → PipelineAnswers) → ℕ → ℕ → List Kept → Modeset → Type 0
SetUp a i left done r =
    (AllMade a i left
      × (r ≡ record { ret = success; pipelines = done ++ set_from i left; freed = []; stray = [] }))
    ⊎ ((m : ℕ) × ((n : ℕ) × ((m ≡ i + n)
            × (n < left)
            × AllMade a i n
            × (outcome (a m) ≢ all_made)
            × (r.ret ≡ e_nomem)
            × (r.pipelines ≡ done ++ set_from i n)
            × (r.freed ≡ freed_at (outcome (a m)) m))))

made_lem :
    (x : InitAnswers) (o : Object)
    → ((fails x ≡ true) × (made x o ≡ null)) ⊎ ((fails x ≡ false) × (made x o ≡ at_ o))
made_lem x o = elim (Bool-cases x.memory) [
  | inr e ↦ rw e (inl (refl, refl))
  | inl e ↦ elim (Bool-cases (nonzero x.init)) [
    | inl e' ↦ simp (e, e') (inl (refl, refl))
    | inr e' ↦ simp (e, e') (inr (refl, refl))
  ]
]

-- What the steps of one pipeline give, by its outcome.
abbrev Made : PipelineAnswers → ℕ → Outcome → Type 0
Made a i crtc_fails = (crtc_init a i).0 ≡ null
Made a i encoder_fails =
    (crtc_init a i ≡ (at_ (crtc_of i), [])) × (made a.encoder (encoder_of i) ≡ null)
Made a i connector_fails =
    (crtc_init a i ≡ (at_ (crtc_of i), []))
    × (made a.encoder (encoder_of i) ≡ at_ (encoder_of i))
    × (connector_init a i ≡ null)
Made a i all_made =
    (crtc_init a i ≡ (at_ (crtc_of i), []))
    × (made a.encoder (encoder_of i) ≡ at_ (encoder_of i))
    × (connector_init a i ≡ at_ (connector_of i))

Made_lem : (a : PipelineAnswers) (i : ℕ) → Made a i (outcome a)
unfolding crtc_init
Made_lem a i = elim (Bool-cases a.crtc_memory) [
  | inr e ↦ simp e refl
  | inl e ↦ elim (made_lem a.primary (primary_of i)) [
    | inl (p, p') ↦ simp (e, p, p') refl
    | inr (p, p') ↦ elim (made_lem a.cursor (cursor_of i)) [
      | inl (q, q') ↦ simp (e, p, p', q, q') refl
      | inr (q, q') ↦ elim (made_lem a.encoder (encoder_of i)) [
        | inl (r, r') ↦ simp (e, p, p', q, q', r, r') (refl, refl)
        | inr (r, r') ↦ elim (Bool-cases a.connector_memory) [
          | inl c ↦ simp (e, p, p', q, q', r, r', c) (refl, refl, refl)
          | inr c ↦ simp (e, p, p', q, q', r, r', c) (refl, refl, refl)
        ]
      ]
    ]
  ]
]

module _ (a : ℕ → PipelineAnswers) where
  failed :
      (i left : ℕ) (done : List Kept) (o : Outcome)
      → outcome (a i) ≡ o
      → o ≢ all_made
      → (stray : List Object)
      → SetUp a i
          (suc left)
          done
          (record { ret = e_nomem; pipelines = done; freed = freed_at o i; stray = stray })
  failed i left done o e ne stray = inr (
    i,
    (
      0,
      (
        omega arith,
        omega arith,
        tt,
        (λ all. ne (sym e ∙ all)),
        refl,
        sym (append-nil done),
        ap (λ x. freed_at x i) (sym e),
      ),
    ),
  )

  -- The outcome of pipeline `i` decides; with all made, what the rest gives decides.
  step_lem :
      (i left : ℕ) (done : List Kept) (o : Outcome)
      → outcome (a i) ≡ o
      → Made (a i) i o
      → SetUp a (suc i) left (done ++ own i ∷ []) (
          modeset_from a
            (suc i)
            left
            (done ++ own i ∷ [])
            (at_ (encoder_of i))
            (at_ (connector_of i)))
      → SetUp a i
          (suc left)
          done
          (modeset_from a i (suc left) done (previous encoder_of i) (previous connector_of i))
  unfolding modeset_from
  step_lem i left done crtc_fails e h rest =
      rw h (failed i left done crtc_fails e (λ f. cc) (crtc_init (a i) i).1)
  step_lem i left done encoder_fails e (c, h) rest =
      rw (c, h) (failed i left done encoder_fails e (λ f. cc) [])
  step_lem i left done connector_fails e (c, n, h) rest =
      rw (c, n, h) (failed i left done connector_fails e (λ f. cc) [])
  step_lem i left done all_made e (c, n, h) (inl (all, r)) =
      rw (c, n, h, r) (inl ((e, all), rw append_assoc refl))
  step_lem i left done all_made e (c, n, h) (inr (m, (k, (eq, lt, all, ne, ret, ps, fr)))) =
      rw (c, n, h)
        (inr (
          m,
          (
            suc k,
            (omega (arith, eq), omega (arith, lt), (e, all), ne, ret, rw append_assoc at ps, fr),
          ),
        ))

  loop_lem :
      (i left : ℕ) (done : List Kept)
      → SetUp a i left done
          (modeset_from a i left done (previous encoder_of i) (previous connector_of i))
  unfolding modeset_from
  loop_lem i zero done = inl (tt, rw append-nil refl)
  loop_lem i (suc left) done =
      step_lem i left done (outcome (a i)) refl (Made_lem (a i) i)
        (loop_lem (suc i) left (done ++ own i ∷ []))

-- Setting up any number of pipelines. Either all steps of all pipelines succeed: the code is 0, each
-- pipeline has its own CRTC, encoder and connector, and nothing is freed. Or pipeline `m` is the
-- first one with a step that fails: the code is -ENOMEM, the pipelines before have their own objects,
-- and what is given to kfree is, of the CRTC, the encoder and the connector, the one of pipeline `m`
-- for a step that succeeded, NULL for the step that failed, and for a step that was not reached the
-- one of the pipeline before, which still points to it, or an unassigned variable where there is none.
pub modeset_init-SetUp :
    (a : ℕ → PipelineAnswers) (count : ℕ) → SetUp a 0 count [] (modeset_init a count)
unfolding modeset_init
modeset_init-SetUp a count = loop_lem a 0 count []
