-- ===== src/Device/Xdata/Bounds.antt =====
-- src/usb_hal/usb_device.c: no read writes more bytes into the caller's buffer than it was asked for.
use ms912x.Base.{
  ℕ, zero, suc, ◌+◌, ◌-◌, ◌%◌, ◌^◌, ◌≤◌, ◌<◌, min, inl, inr, Option, none, some, List, [], ◌++◌,
  arith, ltb, if◌then◌else◌, Bool-cases, length, take, length-append, length-take,
}
use ms912x.Base.Int.{ℤ, nonzero}
use ms912x.Usb.{Kernel, M, History}
use ms912x.Device.Xdata.{
  read_request, exchange, read_xdata_once, chunk, unless_failed, read_xdata_from, read_xdata,
  flash_request, read_flash_from, read_flash,
}

-- How many bytes a read stored.
abbrev pub stored_length : {A : Type 0} → (A × List ℕ) × History → ℕ
stored_length ((code, bytes), h) = length bytes

take_bound : (n : ℕ) (xs : List ℕ) → length (take n xs) ≤ n
take_bound n xs = omega (arith, length-take n xs)

once_bound :
    (k : Kernel) (addr c : ℕ) (h : History) → stored_length (read_xdata_once k addr c h) ≤ c
unfolding read_xdata_once
once_bound k addr c h = elim (Bool-cases (ltb 4 c)) [
  | inl big ↦ simp big (omega arith)
  | inr fits ↦ simp fits (elim (Bool-cases (nonzero (exchange k (read_request addr) h).0.0)) [
    | inl failed ↦ simp failed (omega arith)
    | inr ok ↦ simp ok (take_bound c _)
  ])
]

unless_bound :
    (n : ℕ) (out : List ℕ) (next : ℤ → List ℕ → M (Option ℤ × List ℕ)) (r : ℤ × List ℕ)
    (h : History)
    → length out ≤ n
    → stored_length (next r.0 r.1 h) ≤ n
    → stored_length (unless_failed out next r h) ≤ n
unfolding unless_failed
unless_bound n out next r h a b = elim (Bool-cases (nonzero r.0)) [
  | inl failed ↦ rw (failed, unless_failed) a
  | inr ok ↦ rw (ok, unless_failed) b
]

xdata_from_bound :
    (fuel : ℕ) (k : Kernel) (addr offset cnt : ℕ) (rtn : Option ℤ) (out : List ℕ) (h : History)
    → length out ≤ offset
    → stored_length (read_xdata_from fuel k addr offset cnt rtn out h) ≤ offset + cnt
unfolding read_xdata_from
xdata_from_bound zero k addr offset cnt rtn out h le = omega arith
xdata_from_bound (suc fuel) k addr offset zero rtn out h le = omega arith
xdata_from_bound (suc fuel) k addr offset (suc cnt) rtn out h le =
    let c = chunk (suc cnt) in
    let r = read_xdata_once k ((addr + offset) % 2 ^ 16) c h in
    let small : c ≤ suc cnt = ground arith in
    unless_bound (offset + suc cnt) out _ r.0 r.1 (omega arith) (
      omega (
        arith,
        small,
        xdata_from_bound fuel k addr (offset + c) (suc cnt - c) (some r.0.0) (out ++ r.0.1) r.1
            (omega (arith, length-append out r.0.1, once_bound k ((addr + offset) % 2 ^ 16) c h)),
      ))

flash_from_bound :
    (fuel : ℕ) (k : Kernel) (addr at_ len : ℕ) (rtn : Option ℤ) (out : List ℕ) (h : History)
    → length out ≤ min at_ len
    → stored_length (read_flash_from fuel k addr at_ len rtn out h) ≤ len
unfolding read_flash_from
flash_from_bound zero k addr at_ len rtn out h le = omega arith
flash_from_bound (suc fuel) k addr at_ len rtn out h le = elim (Bool-cases (ltb at_ len)) [
  | inr done ↦ rw (done, read_flash_from) (omega arith)
  | inl more ↦
      let r = exchange k (flash_request (addr + at_)) h in
      let n = if ltb 8 (len - at_) then 8 else len - at_ in
      let below : at_ < len = ground arith in
      let fit : (n ≤ 8) × (n ≤ len - at_) = (ground arith, ground arith) in
      rw (more, read_flash_from)
        (unless_bound len out _ r.0 r.1 (omega arith) (
          flash_from_bound fuel k addr (at_ + 8) len (some r.0.0) (out ++ take n r.0.1) r.1
            (omega (arith, below, fit, take_bound n r.0.1, length-append out (take n r.0.1)))))
]

-- Whatever the bus answers, a register read stores at most the `cnt` bytes, and a flash read at most
-- the `len` bytes, that it was asked for.
pub reads_bounded :
    (k : Kernel) (addr cnt len : ℕ) (h : History)
    → (stored_length (read_xdata k addr cnt h) ≤ cnt)
      × (stored_length (read_flash k addr len h) ≤ len)
unfolding read_xdata read_flash
reads_bounded k addr cnt len h = (
  elim (Bool-cases (ltb 0x1_0000 (addr + cnt))) [
    | inl over ↦ simp over (omega arith)
    | inr fits ↦
        simp fits (omega (arith, xdata_from_bound cnt k addr 0 cnt none [] h (omega arith)))
  ],
  flash_from_bound len k addr 0 len none [] h (omega arith),
)
