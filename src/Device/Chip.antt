-- ===== src/Device/Chip.antt =====
-- src/usb_hal/usb_device.c: what is read out of the chip when the driver attaches, and the frame and
-- hot-plug registers.
pub mod Bounds
use ms912x.Base.{
  ℕ, ◌==◌, ◌&&◌, Bool, false, Option, none, some, List, leb, ltb, get_or, if◌then◌else◌,
}
use ms912x.Base.Int.{ℤ, nonzero}
use ms912x.Usb.{Kernel, M, ◌>>=◌, pure, success, e_inval}
use ms912x.Device.Xdata.{read_xdata_once, read_xdata, first_byte, mod_bits, xdata_write_byte}
use ms912x.Device.Command.{
  chip_id_9132, chip_id_9120, chip_id_912a, chip_id_912c, port_max, port_cvbs_svideo, sdram_none,
}

-- `*status` is set to 0 first.
unfoldable pub get_hpd_status : Kernel → M (ℤ × ℕ)
get_hpd_status k = do
  (rtn, bytes) ← read_xdata_once k 0x32 1
  pure (rtn, if nonzero rtn then 0 else first_byte bytes)

-- The second part is what is stored through the pointer, if anything is.
unfoldable current_frame_index : Kernel → M (ℤ × Option ℕ)
current_frame_index k = do
  (ret, bytes) ← read_xdata_once k 0xd003 1
  pure (ret, if nonzero ret then none else some (if first_byte bytes == 0 then 0 else 1))

pub get_port_type : Kernel → M (ℤ × Option ℕ)
get_port_type k = do
  (ret, bytes) ← read_xdata_once k 0x31 1
  pure (
      if nonzero ret
      then (ret, none)
      else if leb port_max (first_byte bytes)
      then (e_inval, none)
      else (ret, some (first_byte bytes)))

pub get_sdram_type : Kernel → M (ℤ × Option ℕ)
get_sdram_type k = do
  (ret, bytes) ← read_xdata_once k 0x30 1
  pure (
      if nonzero ret
      then (ret, none)
      else if ltb sdram_none (first_byte bytes)
      then (e_inval, none)
      else (ret, some (first_byte bytes)))

-- The second identification, at 0xf000: three known revisions of the 912x, and no value at all for
-- other bytes, with the code 0 all the same.
abbrev pub id_912x : List ℕ → Option ℕ
id_912x buf =
    if get_or buf 1 0 == 0x16 && get_or buf 2 0 == 0x0a
    then (if get_or buf 0 0 == 0xb7
        then some chip_id_912c
        else if get_or buf 0 0 == 0xa7
        then some chip_id_912a
        else some chip_id_9120)
    else none

abbrev failed : Option ℤ → Bool
failed none = false
failed (some r) = nonzero r

pub get_chip_id : Kernel → M (Option ℤ × Option ℕ)
get_chip_id k = do
  (ret, buf) ← read_xdata k 0xff00 3
  (if failed ret
      then pure (ret, none)
      else if get_or buf 1 0 == 0x13 && get_or buf 2 0 == 0x0a
      then pure (some success, some chip_id_9132)
      else (do
        (ret', buf') ← read_xdata k 0xf000 3
        pure (if failed ret' then (ret', none) else (some success, id_912x buf'))))

unfoldable pub init_dev : Kernel → ℕ → M ℤ
init_dev k port_type =
    if port_type == port_cvbs_svideo
    then (do
      ret ← mod_bits k 0xf160 0x0 0x20
      if nonzero ret then pure ret else xdata_write_byte k 0xf031 0x34)
    else pure success
