-- ===== src/Hal/Sysfs/Registers.antt =====
-- src/usb_hal/usb_hal_sysfs.c: the files that write and read a register of the chip. What `sscanf` and
-- `kstrtou16` make of the text is a parameter.
use ms912x.Base.{
  ℕ, ◌%◌, ◌^◌, ◌<◌, ◌≡◌, refl, ap, ◌∙◌, ◌⊎◌, inl, inr, true, Option, none, some, List, arith, ◌==◌,
  if◌then◌else◌,
}
use ms912x.Base.Int.{ℤ, pos}
use ms912x.Usb.{Kernel, History, M, ◌>>=◌, pure, e_inval, negative}
use ms912x.Device.Xdata.{read_xdata_once, write_request, xdata_write_byte, first_byte}
use ms912x.Device.Xdata.Serves.{ServesXdata, after_read, after_set, once_lem, xdata_write_byte_lem}

-- What a store returns, and the byte that it logs.
pub record Stored : Type 0 where
  pub ret : ℤ
  pub logged : Option ℕ

abbrev fails : ℤ → Stored
fails ret = record { ret = ret; logged = none }

-- From the read on: `count` is the length of the text.
abbrev logged_byte : ℕ → ℤ × List ℕ → M Stored
logged_byte count (ret, bytes) =
    if negative ret
    then pure (fails ret)
    else pure (record { ret = pos count; logged = some (first_byte bytes) })

-- `usb_hal_write_xdata_store`; `scanned` are the two numbers, where `sscanf` returns 2.
pub write_xdata_store : Kernel → Option (ℕ × ℕ) → ℕ → M Stored
write_xdata_store k none count = pure (fails e_inval)
write_xdata_store k (some (reg, data')) count = do
  ret ← xdata_write_byte k (reg % 2 ^ 16) (data' % 2 ^ 8)
  if negative ret
      then pure (fails ret)
      else (do read ← read_xdata_once k (reg % 2 ^ 16) 1; logged_byte count read)

-- `usb_hal_read_xdata_store`; `parsed` is the code of `kstrtou16`, or the number.
pub read_xdata_store : Kernel → ℤ ⊎ ℕ → ℕ → M Stored
read_xdata_store k (inl ret) count = pure (fails ret)
read_xdata_store k (inr reg) count = do read ← read_xdata_once k reg 1; logged_byte count read

-- A write changes the register that it names, and no other.
pub record StoresXdata (mem : History → ℕ → ℕ) : Type 0 where
  pub stores :
      (h : History) (addr v a : ℕ)
      → addr < 0x1_0000
      → mem (after_set (write_request addr v) h) a ≡ (if a == addr then v else mem h a)

module _ {k : Kernel} {mem : History → ℕ → ℕ} (s : ServesXdata k mem) (w : StoresXdata mem) where
  write_xdata_store_run :
      (reg data' count : ℕ) (h : History)
      → let addr = reg % 2 ^ 16 in
        let h1 = after_set (write_request addr (data' % 2 ^ 8)) h in
        write_xdata_store k (some (reg, data')) count h
        ≡ (record { ret = pos count; logged = some (mem h1 addr) }, after_read addr h1)
  unfolding write_xdata_store
  write_xdata_store_run reg data' count h =
      let addr : ℕ = reg % 2 ^ 16 in
      let v : ℕ = data' % 2 ^ 8 in
      let h1 = after_set (write_request addr v) h in
      rw (xdata_write_byte_lem s addr v h, once_lem s addr 1 h1 (omega arith) (omega arith)) refl

  -- On a device that serves and stores its registers: writing `data'` to `reg` by the one file
  -- succeeds, logs the byte that was written, and changes that register alone. Reading it by the
  -- other file then logs the same byte, and changes no register.
  pub xdata_stores_lem :
      (reg data' count count' : ℕ) (a : ℕ) (h : History)
      → let addr = reg % 2 ^ 16 in
        let (wrote, h1) = write_xdata_store k (some (reg, data')) count h in
        let (read, h2) = read_xdata_store k (inr addr) count' h1 in
        (wrote ≡ record { ret = pos count; logged = some (data' % 2 ^ 8) })
        × (read ≡ record { ret = pos count'; logged = some (data' % 2 ^ 8) })
        × (mem h2 a ≡ (if a == addr then data' % 2 ^ 8 else mem h a))
  unfolding read_xdata_store
  xdata_stores_lem reg data' count count' a h =
      let addr : ℕ = reg % 2 ^ 16 in
      let v : ℕ = data' % 2 ^ 8 in
      let h1 = after_set (write_request addr v) h in
      let h2 = after_read addr h1 in
      let small : addr < 0x1_0000 = omega arith in
      let same : (addr == addr) ≡ true = ground arith in
      let there : mem h1 addr ≡ v = w.stores h addr v addr small ∙ rw same refl in
      let still : mem h2 ≡ mem h1 = s.steady h1 addr in
      let again : mem h2 addr ≡ v = ap (λ m. m addr) still ∙ there in
      rw (write_xdata_store_run reg data' count h, once_lem s addr 1 h2 small (omega arith))
        (
          ap (λ b. record { ret = pos count; logged = some b }) there,
          ap (λ b. record { ret = pos count'; logged = some b }) again,
          ap (λ m. m a) (s.steady h2 addr) ∙ ap (λ m. m a) still ∙ w.stores h addr v a small,
        )
