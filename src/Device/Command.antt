-- ===== src/Device/Command.antt =====
-- src/usb_hal/usb_device.c: the video commands, one set report each, and the screen mute register.
pub mod Laws
pub mod Screen
use ms912x.Base.{
  ℕ, ◌-◌, ◌^◌, ◌==◌, Bool, true, false, not, List, [], ◌∷◌, bit_and, bit_or, if◌then◌else◌, Option,
  none, some,
}
use ms912x.Base.Int.{ℤ, nonzero}
use mathlib.Core.Bool.{xor, ◌||◌}
use ms912x.Usb.{Kernel, M, ◌>>=◌, pure, hid_report, minus_one}
use ms912x.Device.Xdata.{addr_hi, addr_lo, read_xdata_once, xdata_write_byte, first_byte}

-- The chips of usb_hal_chip.h.
abbrev pub chip_id_9132 : ℕ
chip_id_9132 = 0

abbrev pub chip_id_9120 : ℕ
chip_id_9120 = 1

abbrev pub chip_id_912a : ℕ
chip_id_912a = 2

abbrev pub chip_id_912c : ℕ
chip_id_912c = 3

-- The video ports of usb_hal_chip.h.
abbrev pub port_cvbs : ℕ
port_cvbs = 0

abbrev pub port_svideo : ℕ
port_svideo = 1

abbrev pub port_vga : ℕ
port_vga = 2

abbrev pub port_ypbpr : ℕ
port_ypbpr = 3

abbrev pub port_cvbs_svideo : ℕ
port_cvbs_svideo = 4

abbrev pub port_hdmi : ℕ
port_hdmi = 5

abbrev pub port_digital : ℕ
port_digital = 6

abbrev pub port_max : ℕ
port_max = 7

abbrev pub sdram_2m : ℕ
sdram_2m = 0

abbrev pub sdram_none : ℕ
sdram_none = 4

-- `struct ms9132_hid_video`: MS9132_HID_OP_VIDEO, the sub-operation and six bytes.
abbrev pub video_report : ℕ → List ℕ → List ℕ
video_report sub_op info = 0xa6 ∷ sub_op ∷ info

abbrev pub send_video : Kernel → ℕ → List ℕ → M ℤ
send_video k sub_op info = do (rtn, sent) ← hid_report k true (video_report sub_op info) 8; pure rtn

pub set_video_in_info : Kernel → ℕ → ℕ → ℕ → ℕ → M ℤ
set_video_in_info k width height color byte_sel =
    send_video k 0x01
      (addr_hi width ∷ addr_lo width ∷ addr_hi height ∷ addr_lo height ∷ color ∷ byte_sel ∷ [])

pub set_video_out_info : Kernel → ℕ → ℕ → ℕ → ℕ → M ℤ
set_video_out_info k index color width height =
    send_video k 0x02
      (index ∷ color ∷ addr_hi width ∷ addr_lo width ∷ addr_hi height ∷ addr_lo height ∷ [])

unfoldable trigger_frame : Kernel → ℕ → ℕ → M ℤ
trigger_frame k index delay = send_video k 0x00 (index ∷ delay ∷ 0 ∷ 0 ∷ 0 ∷ 0 ∷ [])

-- The parameters that a transfer mode takes: MANUAL_BLOCK (3), FRAME (0) and the two bypass modes
-- (4, 5) none, FIX_BLOCK_MN (1) two and FIX_BLOCK_WH (2) four; another mode is refused. The bytes
-- are `*param`, which the source reads without a check.
abbrev pub trans_mode_params : ℕ → ℕ → ℕ → ℕ → ℕ → Option (List ℕ)
trans_mode_params mode p0 p1 p2 p3 =
    if mode == 0 || mode == 3 || mode == 4 || mode == 5
    then some (mode ∷ 0 ∷ 0 ∷ 0 ∷ 0 ∷ 0 ∷ [])
    else if mode == 1
    then some (mode ∷ p0 ∷ p1 ∷ 0 ∷ 0 ∷ 0 ∷ [])
    else if mode == 2
    then some (mode ∷ p0 ∷ p1 ∷ p2 ∷ p3 ∷ 0 ∷ [])
    else none

pub set_trans_mode : Kernel → ℕ → ℕ → ℕ → ℕ → ℕ → M ℤ
set_trans_mode k mode p0 p1 p2 p3 = elim (trans_mode_params mode p0 p1 p2 p3) [
  | none ↦ pure minus_one
  | some info ↦ send_video k 0x03 info
]

pub set_trans_enable : Kernel → ℕ → M ℤ
set_trans_enable k enable = send_video k 0x04 (enable ∷ 0 ∷ 0 ∷ 0 ∷ 0 ∷ 0 ∷ [])

pub set_video_enable : Kernel → ℕ → M ℤ
set_video_enable k enable = send_video k 0x05 (enable ∷ 0 ∷ 0 ∷ 0 ∷ 0 ∷ 0 ∷ [])

pub set_power_enable : Kernel → ℕ → M ℤ
set_power_enable k enable = send_video k 0x07 (enable ∷ 2 ∷ 0 ∷ 0 ∷ 0 ∷ 0 ∷ [])

-- The register, the mask and `is_clear` that `ms9132_set_screen_enable` chooses.
pub record ScreenReg : Type 0 where
  pub addr : ℕ
  pub mask : ℕ
  pub is_clear : Bool

abbrev screen_reg_at : ℕ → ℕ → Bool → ScreenReg
screen_reg_at addr mask is_clear = record { addr = addr; mask = mask; is_clear = is_clear }

pub screen_reg : ℕ → ℕ → ScreenReg
screen_reg chip_id port_type =
    if chip_id == chip_id_9132
    then (if port_type == port_hdmi
        then screen_reg_at 0xfb07 (2 ^ 1) true
        else screen_reg_at 0xf037 0x1 false)
    else if port_type == port_hdmi
    then screen_reg_at 0xf507 0x2 true
    else if port_type == port_vga
    then screen_reg_at 0xf004 0x80 false
    else if port_type == port_ypbpr
    then screen_reg_at 0xf030 0x1 false
    else if port_type == port_digital
    then screen_reg_at 0xf005 0x10 false
    else screen_reg_at 0xf004 0x2 false

-- `data |= mask` if `!!enable ^ is_clear`, else `data &= ~mask`.
pub screen_byte : ℕ → ScreenReg → ℕ → ℕ
screen_byte enable r data' =
    if xor (not (enable == 0)) r.is_clear then bit_or data' r.mask else bit_and data' (255 - r.mask)

pub set_screen_enable : Kernel → ℕ → ℕ → ℕ → M ℤ
set_screen_enable k enable chip_id port_type = do
  let r = screen_reg chip_id port_type
  (ret, bytes) ← read_xdata_once k r.addr 1
  (if nonzero ret
      then pure ret
      else xdata_write_byte k r.addr (screen_byte enable r (first_byte bytes)))
