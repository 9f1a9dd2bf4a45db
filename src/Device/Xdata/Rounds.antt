-- ===== src/Device/Xdata/Rounds.antt =====
-- src/usb_hal/usb_device.c: the loops of the reads end. Their models run on fuel; that more of it
-- changes nothing shows that each loop has ended by its own test.
use ms912x.Base.{
  ℕ, zero, suc, ◌+◌, ◌-◌, ◌%◌, ◌^◌, ◌≤◌, ◌≡◌, refl, ap, inl, inr, false, Option, none, some, List,
  [], ◌++◌, arith, ltb, if◌then◌else◌, Bool-cases, take,
}
use mathlib.Core.Path.{fun_ext}
use ms912x.Usb.{Kernel, M, ◌>>=◌}
use ms912x.Device.Xdata.{
  chunk, unless_failed, read_xdata_once, read_xdata_from, exchange, flash_request, read_flash_from,
  read_flash,
}
use ms912x.Base.Int.{ℤ}

read_xdata_rounds :
    (k : Kernel) (fuel more addr offset cnt : ℕ) (rtn : Option ℤ) (out : List ℕ)
    → cnt ≤ fuel
    → cnt ≤ more
    → read_xdata_from fuel k addr offset cnt rtn out
      ≡ read_xdata_from more k addr offset cnt rtn out
unfolding read_xdata_from
read_xdata_rounds k zero zero addr offset cnt rtn out le le' = refl
read_xdata_rounds k zero (suc m) addr offset zero rtn out le le' = refl
read_xdata_rounds k zero (suc m) addr offset (suc cnt) rtn out le le' = absurd (omega (arith, le))
read_xdata_rounds k (suc n) zero addr offset zero rtn out le le' = refl
read_xdata_rounds k (suc n) zero addr offset (suc cnt) rtn out le le' = absurd (omega (arith, le'))
read_xdata_rounds k (suc n) (suc m) addr offset zero rtn out le le' = refl
read_xdata_rounds k (suc n) (suc m) addr offset (suc cnt) rtn out le le' =
    ap
      (λ (next : ℤ → List ℕ → M (Option ℤ × List ℕ)).
        read_xdata_once k ((addr + offset) % 2 ^ 16) (chunk (suc cnt)) >>= unless_failed out next)
      (fun_ext λ code. fun_ext λ bytes.
        read_xdata_rounds k n m addr (offset + chunk (suc cnt)) (suc cnt - chunk (suc cnt))
          (some code) (out ++ bytes) (ground (arith, le)) (ground (arith, le')))

read_flash_rounds :
    (k : Kernel) (fuel more addr pos len : ℕ) (rtn : Option ℤ) (out : List ℕ)
    → len ≤ pos + fuel
    → len ≤ pos + more
    → read_flash_from fuel k addr pos len rtn out ≡ read_flash_from more k addr pos len rtn out
unfolding read_flash_from
read_flash_rounds k zero zero addr pos len rtn out le le' = refl
read_flash_rounds k zero (suc m) addr pos len rtn out le le' =
    let over : ltb pos len ≡ false = ground (arith, le) in rw (over, read_flash_from) refl
read_flash_rounds k (suc n) zero addr pos len rtn out le le' =
    let over : ltb pos len ≡ false = ground (arith, le') in rw (over, read_flash_from) refl
read_flash_rounds k (suc n) (suc m) addr pos len rtn out le le' = elim (Bool-cases (ltb pos len)) [
  | inr over ↦ rw (over, read_flash_from) refl
  | inl left ↦
      rw (left, read_flash_from)
        (ap
          (λ (next : ℤ → List ℕ → M (Option ℤ × List ℕ)).
            exchange k (flash_request (addr + pos)) >>= unless_failed out next)
          (fun_ext λ code. fun_ext λ bytes.
            read_flash_rounds k n m addr (pos + 8) len (some code)
              (out ++ take (if ltb 8 (len - pos) then 8 else len - pos) bytes) (omega (arith, le))
              (omega (arith, le'))))
]

-- The two loops end by their own tests, whatever the bus answers: more rounds than a read has bytes
-- make no call more and change no result.
pub read_loops_end :
    (k : Kernel) (addr cnt extra : ℕ)
    → (read_xdata_from (cnt + extra) k addr 0 cnt none []
        ≡ read_xdata_from cnt k addr 0 cnt none [])
      × (read_flash_from (cnt + extra) k addr 0 cnt none [] ≡ read_flash k addr cnt)
unfolding read_flash
read_loops_end k addr cnt extra = (
  read_xdata_rounds k (cnt + extra) cnt addr 0 cnt none [] (omega arith) (omega arith),
  read_flash_rounds k (cnt + extra) cnt addr 0 cnt none [] (omega arith) (omega arith),
)
