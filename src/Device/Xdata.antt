-- ===== src/Device/Xdata.antt =====
-- src/usb_hal/usb_device.c: the register, flash and SFR accesses, each a set report and mostly a get
-- report of eight bytes. A read returns its code and the bytes that it stores from `buf` on.
pub mod Serves
pub mod Read
pub mod Bounds
pub mod Rounds
use ms912x.Base.{
  ℕ, zero, suc, ◌+◌, ◌-◌, ◌/◌, ◌%◌, ◌^◌, Bool, true, false, Option, none, some, List, [], ◌∷◌, ◌++◌,
  ltb, take, drop, get_elem?, bit_and, bit_or, if◌then◌else◌,
}
use ms912x.Base.Int.{ℤ, nonzero}
use ms912x.Usb.{Kernel, M, ◌>>=◌, pure, hid_report, minus_one, e_range}

-- The report operations of usb_device_hid.h.
abbrev pub op_read_data : ℕ
op_read_data = 0xb5

abbrev pub op_write_one_byte : ℕ
op_write_one_byte = 0xb6

abbrev pub op_read_sfr_data : ℕ
op_read_sfr_data = 0xc5

abbrev pub op_write_sfr_data : ℕ
op_write_sfr_data = 0xc6

abbrev pub op_read_flash_eight_bytes : ℕ
op_read_flash_eight_bytes = 0xf5

abbrev pub xdata_read_max_cnt : ℕ
xdata_read_max_cnt = 4

abbrev pub addr_hi : ℕ → ℕ
addr_hi addr = bit_and addr 0xff00 / 2 ^ 8

abbrev pub addr_lo : ℕ → ℕ
addr_lo addr = bit_and addr 0xff

-- `struct ms9132_hid_read_data` as `ms9132_read_xdata_once` fills it.
abbrev pub read_request : ℕ → List ℕ
read_request addr = op_read_data ∷ addr_hi addr ∷ addr_lo addr ∷ 0 ∷ 0 ∷ 0 ∷ 0 ∷ 0 ∷ []

-- A set report, and if it succeeds a get report into the same eight bytes.
abbrev pub exchange : Kernel → List ℕ → M (ℤ × List ℕ)
exchange k report = do
  (rtn, sent) ← hid_report k true report 8
  if nonzero rtn then pure (rtn, sent) else hid_report k false sent 8

-- `rdata.data[0 .. read_cnt)`.
abbrev pub read_bytes : ℕ → ℤ × List ℕ → ℤ × List ℕ
read_bytes cnt (rtn, report) = (rtn, (if nonzero rtn then [] else take cnt (drop 3 report)))

pub read_xdata_once : Kernel → ℕ → ℕ → M (ℤ × List ℕ)
read_xdata_once k addr read_cnt =
    if ltb xdata_read_max_cnt read_cnt
    then pure (minus_one, [])
    else (do r ← exchange k (read_request addr); pure (read_bytes read_cnt r))

abbrev pub chunk : ℕ → ℕ
chunk cnt = if ltb xdata_read_max_cnt cnt then xdata_read_max_cnt else cnt

-- `if (rtn) goto out;` after a read in a loop.
pub unless_failed :
    List ℕ → (ℤ → List ℕ → M (Option ℤ × List ℕ)) → ℤ × List ℕ → M (Option ℤ × List ℕ)
unless_failed out next (rtn, bytes) = elim (nonzero rtn) [
  | true ↦ pure (some rtn, out)
  | false ↦ next rtn bytes
]

-- The loop of `ms9132_read_xdata` at `cnt` bytes left, `rtn` being `none` while it is not assigned.
-- It is run on `cnt` rounds of fuel, and each round but the last takes four bytes.
pub read_xdata_from : ℕ → Kernel → ℕ → ℕ → ℕ → Option ℤ → List ℕ → M (Option ℤ × List ℕ)
read_xdata_from zero k addr offset cnt rtn out = pure (rtn, out)
read_xdata_from (suc fuel) k addr offset zero rtn out = pure (rtn, out)
read_xdata_from (suc fuel) k addr offset (suc cnt) rtn out =
    read_xdata_once k ((addr + offset) % 2 ^ 16) (chunk (suc cnt))
    >>= unless_failed out λ code bytes.
      read_xdata_from fuel k addr (offset + chunk (suc cnt)) (suc cnt - chunk (suc cnt)) (some code)
        (out ++ bytes)

-- `none` for the code is the value of a variable that was never assigned.
pub read_xdata : Kernel → ℕ → ℕ → M (Option ℤ × List ℕ)
read_xdata k addr cnt =
    if ltb 0x1_0000 (addr + cnt)
    then pure (some e_range, [])
    else read_xdata_from cnt k addr 0 cnt none []

abbrev pub flash_request : ℕ → List ℕ
flash_request a =
    op_read_flash_eight_bytes
    ∷ bit_and (a / 2 ^ 16) 0xff
    ∷ bit_and (a / 2 ^ 8) 0xff
    ∷ bit_and a 0xff
    ∷ 0
    ∷ 0
    ∷ 0
    ∷ 0
    ∷ []

-- The loop of `ms9132_read_flash` from `pos` on: eight bytes a round, on `len` rounds of fuel.
pub read_flash_from : ℕ → Kernel → ℕ → ℕ → ℕ → Option ℤ → List ℕ → M (Option ℤ × List ℕ)
read_flash_from zero k addr pos len rtn out = pure (rtn, out)
read_flash_from (suc fuel) k addr pos len rtn out = elim (ltb pos len) [
  | false ↦ pure (rtn, out)
  | true ↦
      exchange k (flash_request (addr + pos))
      >>= unless_failed out λ code bytes.
        read_flash_from fuel k addr (pos + 8) len (some code)
          (out ++ take (if ltb 8 (len - pos) then 8 else len - pos) bytes)
]

pub read_flash : Kernel → ℕ → ℕ → M (Option ℤ × List ℕ)
read_flash k addr len = read_flash_from len k addr 0 len none []

-- The value is `*data`, written only on success.
unfoldable pub read_sfr_data : Kernel → ℕ → M (ℤ × Option ℕ)
read_sfr_data k addr = do
  (rtn, report) ← exchange k (op_read_sfr_data ∷ addr % 256 ∷ 0 ∷ 0 ∷ 0 ∷ 0 ∷ 0 ∷ 0 ∷ [])
  pure (rtn, if nonzero rtn then none else get_elem? report 2)

unfoldable pub write_sfr_data : Kernel → ℕ → ℕ → M ℤ
write_sfr_data k addr value = do
  (rtn, sent) ←
      hid_report k true (op_write_sfr_data ∷ addr % 256 ∷ value ∷ 0 ∷ 0 ∷ 0 ∷ 0 ∷ 0 ∷ []) 8
  pure rtn

-- `struct ms9132_hid_write_data_byte` as `ms9132_xdata_write_byte` fills it.
abbrev pub write_request : ℕ → ℕ → List ℕ
write_request addr data' =
    op_write_one_byte ∷ addr_hi addr ∷ addr_lo addr ∷ data' ∷ 0 ∷ 0 ∷ 0 ∷ 0 ∷ []

pub xdata_write_byte : Kernel → ℕ → ℕ → M ℤ
xdata_write_byte k addr data' = do
  (rtn, sent) ← hid_report k true (write_request addr data') 8
  pure rtn

-- The first byte that a read stored.
abbrev pub first_byte : List ℕ → ℕ
first_byte [] = 0
first_byte (x ∷ xs) = x

-- `reg & (u8)~mask | value & mask`.
abbrev pub mod_byte : ℕ → ℕ → ℕ → ℕ
mod_byte reg value mask = bit_or (bit_and reg (255 - mask)) (bit_and value mask)

unfoldable pub mod_bits : Kernel → ℕ → ℕ → ℕ → M ℤ
mod_bits k addr value mask = do
  (ret, bytes) ← read_xdata_once k addr 1
  if nonzero ret then pure ret else xdata_write_byte k addr (mod_byte (first_byte bytes) value mask)
