-- ===== src/Device/Chip/Bounds.antt =====
-- src/usb_hal/usb_device.c: what the identification of the chip can return.
use ms912x.Base.{ℕ, ◌≡◌, ◌<◌, ◌≤◌, arith, Option, none, some, false}
use ms912x.Base.Int.{ℤ, nonzero}
use ms912x.Usb.{Kernel, History, success}
use ms912x.Device.Command.{port_max, sdram_none}
use ms912x.Device.Chip.{get_port_type, get_sdram_type, get_chip_id}

-- A value that is stored satisfies `P`, and comes with the code 0.
abbrev pub Stores : (ℕ → Type 0) → ℤ × Option ℕ → Type 0
Stores P (ret, none) = Unit {0}
Stores P (ret, some v) = P v × (nonzero ret ≡ false)

abbrev pub StoresId : Option ℤ × Option ℕ → Type 0
StoresId (ret, none) = Unit {0}
StoresId (ret, some v) = (v ≤ 3) × (ret ≡ some success)

-- Whatever the bus answers: a port type that is stored is one of the seven, an SDRAM type one of the
-- five, a chip id one of the four, and a value is stored only with the code 0.
pub probe_bounds :
    (k : Kernel) (h : History)
    → Stores (λ p. p < port_max) (get_port_type k h).0
      × Stores (λ t. t ≤ sdram_none) (get_sdram_type k h).0
      × StoresId (get_chip_id k h).0
unfolding get_port_type get_sdram_type get_chip_id
probe_bounds k h = (ground arith, ground arith, ground arith)
