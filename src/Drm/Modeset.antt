-- ===== src/Drm/Modeset.antt =====
-- src/drm/msdisp_drm_modeset.c, msdisp_drm_encoder.c, msdisp_drm_connector.c: the planes, the CRTC, the
-- encoder and the connector of each pipeline are created, with the pointers of the C code.
pub mod Freed
use ms912x.Base.{
  ℕ, zero, suc, ◌+◌, ◌-◌, ◌*◌, ◌/◌, ◌%◌, ◌^◌, ◌≤◌, ◌<◌, min, max, bit_and, bit_or, ◌≡◌, refl, sym,
  ap, ◌∙◌, subst, ◌≢◌, ◌↔◌, ◌⊎◌, inl, inr, Bool, true, false, not, ◌&&◌, ◌||◌, Option, none, some,
  List, [], ◌∷◌, ◌++◌, map, arith, ltb, leb, ◌==◌, if◌then◌else◌, ltb→lt, lt→ltb, leb→le, ==_iff,
  Bool-cases, Option-cases, length, get_elem?, get_or, set, take, drop, replicate, length-append,
  length-set, get_elem?-set_self, get_elem?-set_ne, get_elem?-lt, get_elem?-bound, get_elem?_past,
  length-take, length-drop, length-replicate, All, All-append,
}
use ms912x.Base.Int.{ℤ, nonzero}
use ms912x.Usb.{success, e_nomem}

-- An object by the pipeline that it was created for.
pub data Object : Type 0 where
  crtc_of primary_of cursor_of encoder_of connector_of : ℕ → Object

-- A pointer variable: not assigned, NULL, or an object.
pub data Pointer : Type 0 where
  unset null : Pointer
  at_ : Object → Pointer

-- Is there memory, and what does the object's initialisation return?
pub record InitAnswers : Type 0 where
  pub memory : Bool
  pub init : ℤ

-- What the creation of one pipeline's objects meets.
pub record PipelineAnswers : Type 0 where
  pub crtc_memory : Bool
  pub primary : InitAnswers
  pub cursor : InitAnswers
  pub encoder : InitAnswers
  pub connector_memory : Bool

-- `msdisp_drm_create_plane`: an object whose initialisation fails is freed.
abbrev pub made : InitAnswers → Object → Pointer
made a o = if not a.memory then null else if nonzero a.init then null else at_ o

abbrev pub is_null : Pointer → Bool
is_null (at_ o) = false
is_null unset = false
is_null null = true

-- `msdisp_drm_crtc_init`, with the planes that are left without a CRTC.
pub crtc_init : PipelineAnswers → ℕ → Pointer × List Object
crtc_init a i =
    if not a.crtc_memory
    then (null, [])
    else if is_null (made a.primary (primary_of i))
    then (null, [])
    else if is_null (made a.cursor (cursor_of i))
    then (null, primary_of i ∷ [])
    else (at_ (crtc_of i), [])

-- `msdisp_drm_encoder_init`, with the same error path.
abbrev pub encoder_init : PipelineAnswers → ℕ → Pointer
encoder_init a i = made a.encoder (encoder_of i)

-- `msdisp_drm_connector_init`.
abbrev pub connector_init : PipelineAnswers → ℕ → Pointer
connector_init a i = if a.connector_memory then at_ (connector_of i) else null

-- The three pointers that a pipeline keeps.
pub record Kept : Type 0 where
  pub crtc : Pointer
  pub encoder : Pointer
  pub connector : Pointer

-- The code, the pipelines that are set, the pointers that the label `err` gave to kfree, and the
-- planes that are left without a CRTC.
pub record Modeset : Type 0 where
  pub ret : ℤ
  pub pipelines : List Kept
  pub freed : List Pointer
  pub stray : List Object

-- The label `err`.
abbrev pub err : List Kept → List Object → Pointer → Pointer → Pointer → Modeset
err done stray crtc encoder connector = record {
  ret = e_nomem;
  pipelines = done;
  freed = crtc ∷ encoder ∷ connector ∷ [];
  stray = stray;
}

-- The loop from pipeline `i` on, `left` to go, with the pipelines that are set and what `encoder` and
-- `connector` hold.
pub modeset_from : (ℕ → PipelineAnswers) → ℕ → ℕ → List Kept → Pointer → Pointer → Modeset
modeset_from a i zero done encoder connector = record {
  ret = success;
  pipelines = done;
  freed = [];
  stray = [];
}
modeset_from a i (suc left) done encoder connector =
    let (crtc, stray) = crtc_init (a i) i in
    let encoder' = encoder_init (a i) i in
    let connector' = connector_init (a i) i in
    let rest =
      modeset_from a (suc i) left
        (done ++ record { crtc = crtc; encoder = encoder'; connector = connector' } ∷ []) encoder'
        connector' in
    if is_null crtc
    then err done stray crtc encoder connector
    else if is_null encoder'
    then err done stray crtc encoder' connector
    else if is_null connector'
    then err done stray crtc encoder' connector'
    else rest

-- `msdisp_drm_modeset_init` for `count` pipelines.
pub modeset_init : (ℕ → PipelineAnswers) → ℕ → Modeset
modeset_init a count = modeset_from a 0 count [] unset unset
