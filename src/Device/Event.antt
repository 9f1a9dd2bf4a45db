-- ===== src/Device/Event.antt =====
-- src/usb_hal/usb_device.c: the enable and disable events, as sequences of video commands.
pub mod Script
use ms912x.Base.{ℕ, ◌==◌, if◌then◌else◌}
use ms912x.Base.Int.{ℤ, nonzero}
use ms912x.Usb.{Kernel, M, ◌>>◌, pure, msleep, success, minus_one}
use ms912x.Device.Command.{
  set_trans_enable, set_video_enable, set_screen_enable, set_power_enable, set_trans_mode,
  set_video_in_info, set_video_out_info,
}

-- `struct usb_hal_event`; the `update` variant of the union is used nowhere.
pub record EnablePara : Type 0 where
  pub color_in : ℕ
  pub color_out : ℕ
  pub vic : ℕ
  pub trans_mode : ℕ
  pub width : ℕ
  pub height : ℕ

pub record Event : Type 0 where
  pub kind : ℕ
  pub para : EnablePara

abbrev pub event_type_enable : ℕ
event_type_enable = 0x9000_0001

abbrev pub event_type_disable : ℕ
event_type_disable = 0x9000_0002

-- `rtn = …; if (rtn) return -1;`.
pub check : M ℤ → M ℤ → M ℤ
check m rest h = let (rtn, h') = m h in if nonzero rtn then (minus_one, h') else rest h'

-- The code of `ms9132_set_power_enable` is dropped: the test behind it reads the old `rtn`, 0.
pub event_enable : Kernel → Event → ℕ → ℕ → M ℤ
unfolding check
event_enable k event chip_id port_type = check (set_trans_enable k 0) (
    check (set_video_enable k 0) (
      check (set_screen_enable k 0 chip_id port_type) (do
        msleep 50
        set_power_enable k 1
        msleep 50
        check (set_trans_mode k p.trans_mode 0 0 0 0) (
            check (set_video_in_info k p.width p.height p.color_in 0) (
              check (set_video_out_info k p.vic p.color_out p.width p.height) (
                check (set_trans_enable k 1) (do
                  msleep 50
                  check (set_video_enable k 0)
                      (check (set_screen_enable k 0 chip_id port_type) (pure success)))))))))
  where
    p : EnablePara
    p = event.para

-- Every command is sent, whatever the others return.
pub event_disable : Kernel → ℕ → ℕ → M ℤ
event_disable k chip_id port_type = do
  set_trans_enable k 0
  set_video_enable k 0
  set_screen_enable k 0 chip_id port_type
  set_power_enable k 0
  pure success

pub event_proc : Kernel → Event → ℕ → ℕ → M ℤ
event_proc k event chip_id port_type =
    if event.kind == event_type_enable
    then event_enable k event chip_id port_type
    else if event.kind == event_type_disable
    then event_disable k chip_id port_type
    else pure minus_one
