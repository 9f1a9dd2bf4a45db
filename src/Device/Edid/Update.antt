-- ===== src/Device/Edid/Update.antt =====
-- src/usb_hal/usb_device.c: what `edid_update_detailed_timing` changes of a block.
use ms912x.Base.{
  ℕ, zero, suc, ◌+◌, ◌%◌, ◌^◌, ◌≡◌, ◌<◌, ◌⊎◌, inl, inr, refl, ap, ◌∙◌, ◌&&◌, Bool-cases, List, [],
  ◌∷◌, ◌++◌, length, take, drop, replicate, get_elem?, get_elem?-set_ne, length-append, length-take,
  length-drop, length-set, length-replicate, ltb, arith, if◌then◌else◌,
}
use ms912x.Device.Edid.{
  MiscTiming, descriptors, backup, checksum_calc, update_detailed_timing, detailed_timing_offset,
}
use ms912x.Device.Edid.Checksum.{sum, sum-checksum_calc}

module _ {ℓ} {A : Type ℓ} where
  get_elem?-append_lt :
      (xs ys : List A) (i : ℕ) → i < length xs → get_elem? (xs ++ ys) i ≡ get_elem? xs i
  get_elem?-append_lt [] ys i h = elim h [ ]
  get_elem?-append_lt (x ∷ xs) ys zero h = refl
  get_elem?-append_lt (x ∷ xs) ys (suc i) h = get_elem?-append_lt xs ys i (omega arith)

  get_elem?-append_ge :
      (xs ys : List A) (i : ℕ) → get_elem? (xs ++ ys) (length xs + i) ≡ get_elem? ys i
  get_elem?-append_ge [] ys i = ap (get_elem? ys) (omega arith)
  get_elem?-append_ge (x ∷ xs) ys i =
      let e : suc (length xs) + i ≡ suc (length xs + i) = omega arith in
      rw e (get_elem?-append_ge xs ys i)

  get_elem?-take : (n : ℕ) (xs : List A) (i : ℕ) → i < n → get_elem? (take n xs) i ≡ get_elem? xs i
  get_elem?-take zero xs i h = elim h [ ]
  get_elem?-take (suc n) [] i h = refl
  get_elem?-take (suc n) (x ∷ xs) zero h = refl
  get_elem?-take (suc n) (x ∷ xs) (suc i) h = get_elem?-take n xs i (omega arith)

  get_elem?-drop : (n : ℕ) (xs : List A) (i : ℕ) → get_elem? (drop n xs) i ≡ get_elem? xs (n + i)
  get_elem?-drop zero xs i = ap (get_elem? xs) (omega arith)
  get_elem?-drop (suc n) [] i = refl
  get_elem?-drop (suc n) (x ∷ xs) i =
      let e : suc n + i ≡ suc (n + i) = omega arith in rw e (get_elem?-drop n xs i)

length-backup : (n : ℕ) (ts : List MiscTiming) → length (backup n ts) ≡ 72
length-backup n ts = omega (
  arith,
  length-take 72 (descriptors n ts ++ replicate 72 0),
  length-append (descriptors n ts) (replicate {A = ℕ} 72 0),
  length-replicate {A = ℕ} 72 0,
)

-- The block with the descriptors in place, before the checksum.
abbrev patched : List ℕ → ℕ → List MiscTiming → List ℕ
patched d n ts =
    take detailed_timing_offset d ++ (backup n ts ++ drop (detailed_timing_offset + 72) d)

module _ (d : List ℕ) (n : ℕ) (ts : List MiscTiming) (len : length d ≡ 0x80) where
  length-patched : length (patched d n ts) ≡ 0x80
  length-patched = omega (
    arith,
    length-append (take detailed_timing_offset d)
        (backup n ts ++ drop (detailed_timing_offset + 72) d),
    length-append (backup n ts) (drop (detailed_timing_offset + 72) d),
    length-backup n ts,
    length-take detailed_timing_offset d,
    length-drop (detailed_timing_offset + 72) d,
  )

  patched_before : (i : ℕ) → i < 0x36 → get_elem? (patched d n ts) i ≡ get_elem? d i
  patched_before i h =
      get_elem?-append_lt (take detailed_timing_offset d) _ i
        (omega (arith, length-take detailed_timing_offset d))
      ∙ get_elem?-take detailed_timing_offset d i h

  patched_after : get_elem? (patched d n ts) 0x7e ≡ get_elem? d 0x7e
  patched_after =
      let e : 0x7e ≡ length (take detailed_timing_offset d) + (length (backup n ts) + 0) =
        omega (arith, length-take detailed_timing_offset d, length-backup n ts) in
      ap (get_elem? (patched d n ts)) e
      ∙ get_elem?-append_ge (take detailed_timing_offset d) _ _
      ∙ get_elem?-append_ge (backup n ts) _ 0
      ∙ get_elem?-drop (detailed_timing_offset + 72) d 0

  patched_frame : (i : ℕ) → (i < 0x36) ⊎ (i ≡ 0x7e) → get_elem? (patched d n ts) i ≡ get_elem? d i
  patched_frame i (inl h) = patched_before i h
  patched_frame i (inr e) = rw e patched_after

  checksum_frame :
      (i : ℕ)
      → (i < 0x36) ⊎ (i ≡ 0x7e)
      → get_elem? (checksum_calc (patched d n ts)) i ≡ get_elem? d i
  unfolding checksum_calc
  checksum_frame i h =
      get_elem?-set_ne (patched d n ts) _ (λ e. ground (arith, h)) ∙ patched_frame i h

  length-checksum_calc : length (checksum_calc (patched d n ts)) ≡ 0x80
  unfolding checksum_calc
  length-checksum_calc = length-set (patched d n ts) 0x7f _ ∙ length-patched

-- Of a block of 128 bytes `edid_update_detailed_timing` leaves the length, the bytes before the four
-- descriptors and the extension count as they are. If it writes (some timings, block 0), the block
-- adds up to a multiple of 256 afterwards, and otherwise its sum is unchanged.
pub update_detailed_timing_lem :
    (d : List ℕ) (ts : List MiscTiming) (count block i : ℕ)
    → length d ≡ 0x80
    → (i < 0x36) ⊎ (i ≡ 0x7e)
    → let d' = update_detailed_timing d ts count block in
      (length d' ≡ 0x80)
      × (get_elem? d' i ≡ get_elem? d i)
      × (sum d' % 2 ^ 8 ≡ (if ltb 0 count && ltb block 1 then 0 else sum d % 2 ^ 8))
unfolding update_detailed_timing
update_detailed_timing_lem d ts count block i len h =
    elim (Bool-cases (ltb 0 count && ltb block 1)) [
      | inl on ↦ rw on (
        length-checksum_calc d n ts len,
        checksum_frame d n ts len i h,
        sum-checksum_calc (patched d n ts) (length-patched d n ts len),
      )
      | inr off ↦ rw off (len, refl, refl)
    ]
  where
    n : ℕ
    n = if ltb 2 count then 2 else count
