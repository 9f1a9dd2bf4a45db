-- ===== src/Hal/Gpio.antt =====
-- src/usb_hal/usb_hal_interface.c: the pins that are set for reading the flash, and back. The local
-- variables `value` and `chip_id` keep what they hold where a read fails; at first they are unset, a
-- parameter. The codes are dropped, as in the code.
use ms912x.Base.{ℕ, Option, none, some, bit_and, bit_or, ◌==◌, if◌then◌else◌}
use ms912x.Base.Int.{nonzero}
use ms912x.Usb.{Kernel, M, ◌>>=◌, ◌>>◌, pure}
use ms912x.Device.Xdata.{
  read_xdata_once, read_sfr_data, write_sfr_data, xdata_write_byte, first_byte,
}
use ms912x.Device.Command.{chip_id_9132}
use ms912x.Device.Chip.{get_chip_id}

abbrev or_else : Option ℕ → ℕ → ℕ
or_else none old = old
or_else (some v) old = v

sfr_read_byte : Kernel → ℕ → ℕ → M ℕ
sfr_read_byte k addr value = do (rtn, v) ← read_sfr_data k addr; pure (or_else v value)

xdata_read_byte : Kernel → ℕ → ℕ → M ℕ
xdata_read_byte k addr value = do
  (rtn, bytes) ← read_xdata_once k addr 1
  pure (if nonzero rtn then value else first_byte bytes)

-- `chip_id` of the two functions below.
read_chip_id : Kernel → ℕ → M ℕ
read_chip_id k unset = do (rtn, id) ← get_chip_id k; pure (or_else id unset)

init_gpio_9132 : Kernel → ℕ → M ℕ
init_gpio_9132 k value = do
  b0 ← sfr_read_byte k 0xb0 value
  write_sfr_data k 0xb0 (bit_and b0 0xfb)
  a0 ← sfr_read_byte k 0xa0 b0
  write_sfr_data k 0xa0 (bit_or a0 0x04)
  write_sfr_data k 0xc7 0xd1
  write_sfr_data k 0xc8 0xc0
  write_sfr_data k 0xca 0x00
  v ← xdata_read_byte k 0xf01f a0
  xdata_write_byte k 0xf01f (bit_and (bit_or v 0x10) 0x7f)
  pure v

-- `value |= ~0x04` sets all bits of the byte but one.
init_gpio_912x : Kernel → ℕ → M ℕ
init_gpio_912x k value = do
  b0 ← sfr_read_byte k 0xb0 value
  write_sfr_data k 0xb0 (bit_or b0 0xdc)
  a0 ← sfr_read_byte k 0xa0 (bit_or b0 0xdc)
  write_sfr_data k 0xa0 (bit_and a0 0xe7)
  a0' ← sfr_read_byte k 0xa0 (bit_and a0 0xe7)
  write_sfr_data k 0xa0 (bit_or a0' 0xfb)
  v ← xdata_read_byte k 0xf016 (bit_or a0' 0xfb)
  xdata_write_byte k 0xf016 (bit_and v 0xfb)
  pure v

-- `usb_hal_init_gpio`.
unfoldable pub init_gpio : Kernel → ℕ → ℕ → M ℕ
unfolding read_chip_id init_gpio_9132 init_gpio_912x sfr_read_byte xdata_read_byte
init_gpio k unset_id unset = do
  chip_id ← read_chip_id k unset_id
  (if chip_id == chip_id_9132 then init_gpio_9132 k unset else init_gpio_912x k unset)

resume_gpio_9132 : Kernel → ℕ → M ℕ
resume_gpio_9132 k value = do
  v ← xdata_read_byte k 0xf01f value
  xdata_write_byte k 0xf01f (bit_and (bit_and v 0xef) 0x7f)
  b0 ← sfr_read_byte k 0xb0 (bit_and (bit_and v 0xef) 0x7f)
  write_sfr_data k 0xb0 (bit_or b0 0x3c)
  b1 ← sfr_read_byte k 0xb1 b0
  write_sfr_data k 0xb1 (bit_or b1 0x3c)
  pure b1

-- `usb_hal_resume_gpio`.
unfoldable pub resume_gpio : Kernel → ℕ → ℕ → M ℕ
unfolding read_chip_id resume_gpio_9132 sfr_read_byte xdata_read_byte
resume_gpio k unset_id unset = do
  chip_id ← read_chip_id k unset_id
  (if chip_id == chip_id_9132 then resume_gpio_9132 k unset else pure unset)
