-- ===== src/Drm/Buffers/Fits.antt =====
-- src/drm/msdisp_drm_gem.c, msdisp_drm_fb.c: a framebuffer lies within its object.
use ms912x.Base.{
  ℕ, suc, ◌+◌, ◌-◌, ◌*◌, ◌/◌, ◌%◌, ◌^◌, ◌≤◌, ◌<◌, ◌≡◌, refl, sym, ap, subst, inl, inr, Bool, true,
  false, not, ◌||◌, Option, none, some, arith, ltb, ◌==◌, if◌then◌else◌, Bool-cases,
}
use ms912x.Base.Int.{ℤ, nonzero}
use ms912x.Usb.{success}
use ms912x.Drm.Gem.{GemObject}
use ms912x.Drm.Buffers.{
  align_pitch, CreateAnswers, new_object, with_handle, round_up, gem_create, DumbArgs, dumb_pitch,
  dumb_size, dumb_create, FbCmd, FbResult, err, created, bpp_of, filled, fb_size, fb_on,
  user_fb_create,
}

-- A failure has a code and keeps the references; a framebuffer has 4 bytes a pixel, one more
-- reference to its object, and all its bytes in it.
abbrev pub Within : Option ℕ → FbCmd → Option GemObject → ℕ → FbResult × ℕ → Type 0
Within cpp c object refs (err code, refs') = (nonzero code ≡ true) × (refs' ≡ refs)
Within cpp c object refs (created fb, refs') =
    (cpp ≡ some 4)
    × ((o : GemObject) × ((object ≡ some o)
          × (c.offset + c.pitch * c.height ≤ o.size)
          × (fb ≡ filled c 4)
          × (refs' ≡ suc refs)))

size_bound : (n : ℕ) → n + 4095 < 2 ^ 32 → n ≤ (n % 2 ^ 32 + 4095) % 2 ^ 32 / 4096 * 4096
size_bound n lt = omega arith

four_bytes : (cpp : Option ℕ) → (bpp_of cpp == 32) ≡ true → cpp ≡ some 4
four_bytes none e = ground (arith, e)
four_bytes (some cpp) e = ap some (ground (arith, e))

fb_on_lem :
    (cpp : Option ℕ) (memory : Bool) (init : ℤ) (c : FbCmd) (refs : ℕ) (object : Option GemObject)
    → c.offset + c.pitch * c.height + 4095 < 2 ^ 32
    → cpp ≡ some 4
    → Within cpp c object refs (fb_on memory init c refs object)
fb_on_lem cpp memory init c refs none lt four = (refl, refl)
fb_on_lem cpp memory init c refs (some o) lt four =
    elim (Bool-cases (ltb o.size (fb_size c) || not memory)) [
      | inl e ↦ rw e (refl, omega arith)
      | inr e ↦ elim (Bool-cases (nonzero init)) [
        | inl e' ↦ rw (e, e') (refl, omega arith)
        | inr e' ↦
            let fits : fb_size c ≤ o.size = ground (arith, e) in
            let whole = size_bound (c.offset + c.pitch * c.height) lt in
            rw (e, e') (four, (o, (refl, omega (arith, fits, whole), refl, refl)))
      ]
    ]

-- A framebuffer on a GEM object, where its end is no wrap-around away: it is refused with a code and
-- no reference is kept, or it has 4 bytes a pixel, lies within the object and holds one reference to
-- it.
pub user_fb_create-Within :
    (format_info : ℕ → Option ℕ) (memory : Bool) (init : ℤ) (c : FbCmd) (object : Option GemObject)
    (refs : ℕ)
    → c.offset + c.pitch * c.height + 4095 < 2 ^ 32
    → Within
        (format_info c.pixel_format)
        c
        object
        refs
        (user_fb_create format_info memory init c object refs)
unfolding user_fb_create
user_fb_create-Within format_info memory init c object refs lt =
    elim (Bool-cases (bpp_of (format_info c.pixel_format) == 32)) [
      | inr e ↦ rw e (refl, refl)
      | inl e ↦ rw e (
          fb_on_lem (format_info c.pixel_format) memory init c refs object lt
            (four_bytes (format_info c.pixel_format) e))
    ]

grows : (a d h : ℕ) → a * h ≤ (a + d) * h
grows a d h = omega arith

scales : (a b h : ℕ) → a ≤ b → a * h ≤ b * h
scales a b h le =
    let eq : a + (b - a) ≡ b = omega (arith, le) in
    subst (λ x. a * h ≤ x * h) eq (grows a (b - a) h)

pitch_lem :
    (w : ℕ) → (w + 63) * 4 < 2 ^ 32 → (4 * w ≤ align_pitch w 4) × (align_pitch w 4 ≤ (w + 63) * 4)
unfolding align_pitch
pitch_lem w lt = omega (arith, lt)

-- The framebuffer that is as large as the dumb buffer.
abbrev pub whole : DumbArgs → ℕ → ℕ → FbCmd
whole args format pitch = record {
  width = args.width;
  height = args.height;
  pixel_format = format;
  pitch = pitch;
  offset = 0;
}

abbrev second : ℤ × Option (ℕ × GemObject) → Option (ℕ × GemObject)
second r = r.1

coded :
    (a : CreateAnswers) (size handle : ℕ) (o : GemObject) (fails : Bool)
    → second (if fails then (a.handle_code, none) else (success, some (a.handle, new_object size)))
      ≡ some (handle, o)
    → o.size ≡ size
coded a size handle o true e = absurd cc
coded a size handle o false e =
    ap (λ (x : Option (ℕ × GemObject)). elim x [ none ↦ size | some y ↦ y.1.size ]) (sym e)

allocated :
    (a : CreateAnswers) (size handle : ℕ) (o : GemObject) (lacks : Bool)
    → (with_handle a (if lacks then none else some (new_object size))).1 ≡ some (handle, o)
    → o.size ≡ size
allocated a size handle o true e = absurd cc
allocated a size handle o false e = coded a size handle o (nonzero a.handle_code) e

object_lem :
    (a : CreateAnswers) (size handle : ℕ) (o : GemObject)
    → (gem_create a size).1 ≡ some (handle, o)
    → o.size ≡ round_up size
unfolding gem_create
object_lem a size handle o e =
    allocated a (round_up size) handle o (not a.memory || nonzero a.init) e

rounded_lem : (n : ℕ) → n + 4095 < 2 ^ 32 → n ≤ round_up (n % 2 ^ 32)
rounded_lem n lt = omega (arith, lt)

same_lem : (n : ℕ) → ((0 + n) % 2 ^ 32 + 4095) % 2 ^ 32 / 4096 * 4096 ≤ round_up (n % 2 ^ 32)
same_lem n = omega arith

dumb_fits :
    (args : DumbArgs)
    → args.bpp ≡ 32
    → (args.width + 63) * 4 * args.height + 4095 < 2 ^ 32
    → (args.width + 63) * 4 < 2 ^ 32
    → (4 * args.width ≤ dumb_pitch args)
      × (dumb_pitch args * args.height ≤ round_up (dumb_size args))
      × (fb_size (whole args 0 (dumb_pitch args)) ≤ round_up (dumb_size args))
dumb_fits args bpp lt lt' = rw bpp (
    let (pixels, padded) = pitch_lem args.width lt' in
    let n = align_pitch args.width 4 * args.height in
    let le : n ≤ (args.width + 63) * 4 * args.height =
      scales (align_pitch args.width 4) ((args.width + 63) * 4) args.height padded in
    let small : n + 4095 < 2 ^ 32 = omega (arith, le, lt) in
    (pixels, rounded_lem n small, same_lem n))

-- A dumb buffer of 32 bits a pixel whose padded lines stay below 2^32 bytes: each line holds its
-- pixels, all lines lie in the object, and a framebuffer of its own size and pitch is granted on it.
pub dumb_create-user_fb_create :
    (a : CreateAnswers) (args : DumbArgs) (handle : ℕ) (o : GemObject) (format_info : ℕ → Option ℕ)
    (format refs : ℕ)
    → args.bpp ≡ 32
    → (args.width + 63) * 4 * args.height + 4095 < 2 ^ 32
    → (args.width + 63) * 4 < 2 ^ 32
    → format_info format ≡ some 4
    → (dumb_create a args).result.1 ≡ some (handle, o)
    → (4 * args.width ≤ (dumb_create a args).pitch)
      × ((dumb_create a args).pitch * args.height ≤ o.size)
      × (user_fb_create format_info true success
            (whole args format (dumb_create a args).pitch)
            (some o)
            refs
          ≡ (created (filled (whole args format (dumb_create a args).pitch) 4), suc refs))
unfolding dumb_create user_fb_create
dumb_create-user_fb_create a args handle o format_info format refs bpp lt lt' four e =
    let (pixels, inside, fits) = dumb_fits args bpp lt lt' in
    let size = object_lem a (dumb_size args) handle o e in
    let enough : ltb o.size (fb_size (whole args format (dumb_pitch args))) ≡ false =
      ground (arith, fits, size) in
    (pixels, omega (arith, inside, size), rw (four, enough) refl)
