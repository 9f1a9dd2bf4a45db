-- ===== src/Device/Xdata/Read.antt =====
-- src/usb_hal/usb_device.c: what `ms9132_read_xdata` reads from a device that serves its memory.
use ms912x.Base.{
  ℕ, zero, suc, ◌+◌, ◌-◌, ◌%◌, ◌^◌, ◌≡◌, ◌≤◌, ◌<◌, refl, ◌∙◌, ap, inl, inr, Option, none, some,
  List, [], ◌∷◌, ◌++◌, ltb, Bool-cases, arith, if◌then◌else◌,
}
use ms912x.Base.Int.{ℤ}
use ms912x.Usb.{Kernel, History, success, e_range, ◌>>=◌}
use ms912x.Usb.{M}
use ms912x.Device.Xdata.Serves.{range, ServesXdata, after_read, once_lem}
use ms912x.Device.Xdata.{unless_failed, read_xdata_from, read_xdata, chunk}
use mathlib.Core.Path.{ap₂}
use mathlib.Core.List.{append-nil, append_assoc}
use native.Mathlib.Nat.{zero-add, add-zero}

range_add : (mem : ℕ → ℕ) (a m n : ℕ) → range mem a (m + n) ≡ range mem a m ++ range mem (a + m) n
range_add mem a zero n = simp (zero-add, add-zero)
range_add mem a (suc m) n =
    let e : suc m + n ≡ suc (m + n) = omega arith in
    rw e (
      ap (λ l. mem a ∷ l)
        (range_add mem (a + 1) m n ∙ ap (λ b. range mem (a + 1) m ++ range mem b n) (omega arith)))

-- `rtn` after a loop over `cnt` bytes.
abbrev pub code_after : ℕ → Option ℤ → Option ℤ
code_after zero rtn = rtn
code_after (suc cnt) rtn = some success

code_after-success : (cnt : ℕ) → code_after cnt (some success) ≡ some success
code_after-success zero = refl
code_after-success (suc cnt) = refl

chunk_bounds :
    (cnt : ℕ) → (chunk (suc cnt) ≤ 4) × (chunk (suc cnt) ≤ suc cnt) × (1 ≤ chunk (suc cnt))
chunk_bounds cnt = ground arith

unless_failed_lem :
    (next : ℤ → List ℕ → M (Option ℤ × List ℕ)) (out bytes : List ℕ)
    → unless_failed out next (success, bytes) ≡ next success bytes
unfolding unless_failed
unless_failed_lem next out bytes = refl

module _ {k : Kernel} {mem : History → ℕ → ℕ} (s : ServesXdata k mem) where
  from_lem :
      (fuel addr offset cnt : ℕ) (rtn : Option ℤ) (out : List ℕ) (h : History)
      → cnt ≤ fuel
      → addr + offset + cnt ≤ 0x1_0000
      → (read_xdata_from fuel k addr offset cnt rtn out h).0
        ≡ (code_after cnt rtn, out ++ range (mem h) (addr + offset) cnt)
  unfolding read_xdata_from
  from_lem zero addr offset zero rtn out h le top = rw append-nil
  from_lem zero addr offset (suc cnt) rtn out h le top = absurd (omega arith)
  from_lem (suc fuel) addr offset zero rtn out h le top = rw append-nil
  from_lem (suc fuel) addr offset (suc cnt) rtn out h le top = rw a_lem (
      rw (once_lem s (addr + offset) c h lt b.0, ◌>>=◌, unless_failed_lem)
        (from_lem fuel addr (offset + c) (suc cnt - c) (some success)
            (out ++ range (mem h) (addr + offset) c) (after_read (addr + offset) h)
            (omega (arith, b)) (omega (arith, b))
          ∙ rw (s.steady h (addr + offset)) joined))
    where
      c : ℕ
      c = chunk (suc cnt)

      lt : addr + offset < 0x1_0000
      lt = omega arith

      a_lem : (addr + offset) % 2 ^ 16 ≡ addr + offset
      a_lem = omega arith

      b : (c ≤ 4) × (c ≤ suc cnt) × (1 ≤ c)
      b = chunk_bounds cnt

      -- The chunk and what follows it.
      halves :
          range (mem h) (addr + offset) c ++ range (mem h) (addr + (offset + c)) (suc cnt - c)
          ≡ range (mem h) (addr + offset) (suc cnt)
      halves =
          let e : addr + (offset + c) ≡ addr + offset + c = omega arith in
          let n : c + (suc cnt - c) ≡ suc cnt = omega (arith, b) in
          rw (e, ← range_add (mem h) (addr + offset) c (suc cnt - c), n)

      joined :
          ◌≡◌ {A = Option ℤ × List ℕ}
            (
              code_after (suc cnt - c) (some success),
              (out ++ range (mem h) (addr + offset) c)
                  ++ range (mem h) (addr + (offset + c)) (suc cnt - c),
            )
            (some success, out ++ range (mem h) (addr + offset) (suc cnt))
      joined =
          ap₂ (λ (r : Option ℤ) (l : List ℕ). (r, l)) (code_after-success (suc cnt - c))
            (append_assoc out _ _ ∙ ap (λ l. out ++ l) halves)

  -- From a device that serves its memory `ms9132_read_xdata` returns 0 and exactly the `cnt` bytes from
  -- `addr` on. A range that ends above 0x10000 is refused with -ERANGE and nothing is read; for no
  -- byte at all the code returned was never assigned.
  pub read_xdata_lem :
      (addr cnt : ℕ) (h : History)
      → (read_xdata k addr cnt h).0 ≡ (
          if ltb 0x1_0000 (addr + cnt)
          then (some e_range, [])
          else (code_after cnt none, range (mem h) addr cnt))
  unfolding read_xdata
  read_xdata_lem addr cnt h = elim (Bool-cases (ltb 0x1_0000 (addr + cnt))) [
    | inl over ↦ rw over
    | inr fits ↦ rw fits (
        from_lem cnt addr 0 cnt none [] h (omega arith) (ground arith)
        ∙ ap (λ a. (code_after cnt none, range (mem h) a cnt)) (add-zero addr))
  ]
