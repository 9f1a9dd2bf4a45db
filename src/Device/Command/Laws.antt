-- ===== src/Device/Command/Laws.antt =====
-- src/usb_hal/usb_device.c: what each video command sends to a device that serves its registers, and
-- what the mute register holds afterwards.
use ms912x.Base.{ℕ, ◌≡◌, ◌<◌, [], ◌∷◌, arith}
use ms912x.Usb.{Kernel, History, success}
use ms912x.Device.Xdata.{write_request}
use ms912x.Device.Xdata.Serves.{
  ServesXdata, after_read, set_lem, once_lem, after_set, xdata_write_byte_lem,
}
use ms912x.Device.Xdata.{addr_hi, addr_lo}
use ms912x.Device.Command.{
  set_trans_enable, set_video_enable, set_power_enable, set_trans_mode, set_video_in_info,
  set_video_out_info,
}
use ms912x.Device.Command.{video_report, send_video, set_screen_enable, screen_reg, screen_byte}

screen_reg_addr : (chip port : ℕ) → (screen_reg chip port).addr < 0x1_0000
unfolding screen_reg
screen_reg_addr chip port = ground arith

module _ {k : Kernel} {mem : History → ℕ → ℕ} (s : ServesXdata k mem) where
  -- A command with its six bytes.
  pub send_video_lem :
      (op a b c d e f : ℕ) (h : History)
      → let info = a ∷ b ∷ c ∷ d ∷ e ∷ f ∷ [] in
        send_video k op info h ≡ (success, after_set (video_report op info) h)
  send_video_lem op a b c d e f h = rw (set_lem s (video_report op (a ∷ b ∷ c ∷ d ∷ e ∷ f ∷ [])) h)

  -- Muting or unmuting the screen reads the one register and writes it back.
  pub set_screen_enable_lem :
      (enable chip port : ℕ) (h : History)
      → let r = screen_reg chip port in
        set_screen_enable k enable chip port h ≡ (
          success,
          after_set
              (write_request r.addr (screen_byte enable r (mem h r.addr)))
              (after_read r.addr h),
        )
  unfolding set_screen_enable
  set_screen_enable_lem enable chip port h =
      rw (once_lem s (screen_reg chip port).addr 1 h (screen_reg_addr chip port) (omega arith))
        (rw (xdata_write_byte_lem s))

  pub set_trans_enable_lem :
      (v : ℕ) (h : History)
      → set_trans_enable k v h
        ≡ (success, after_set (video_report 0x04 (v ∷ 0 ∷ 0 ∷ 0 ∷ 0 ∷ 0 ∷ [])) h)
  unfolding set_trans_enable
  set_trans_enable_lem v h = send_video_lem 0x04 v 0 0 0 0 0 h

  pub set_video_enable_lem :
      (v : ℕ) (h : History)
      → set_video_enable k v h
        ≡ (success, after_set (video_report 0x05 (v ∷ 0 ∷ 0 ∷ 0 ∷ 0 ∷ 0 ∷ [])) h)
  unfolding set_video_enable
  set_video_enable_lem v h = send_video_lem 0x05 v 0 0 0 0 0 h

  pub set_power_enable_lem :
      (v : ℕ) (h : History)
      → set_power_enable k v h
        ≡ (success, after_set (video_report 0x07 (v ∷ 2 ∷ 0 ∷ 0 ∷ 0 ∷ 0 ∷ [])) h)
  unfolding set_power_enable
  set_power_enable_lem v h = send_video_lem 0x07 v 2 0 0 0 0 h

  pub set_trans_mode_lem :
      (h : History)
      → set_trans_mode k 3 0 0 0 0 h
        ≡ (success, after_set (video_report 0x03 (3 ∷ 0 ∷ 0 ∷ 0 ∷ 0 ∷ 0 ∷ [])) h)
  unfolding set_trans_mode
  set_trans_mode_lem h = send_video_lem 0x03 3 0 0 0 0 0 h

  pub set_video_in_info_lem :
      (w y color sel : ℕ) (h : History)
      → set_video_in_info k w y color sel h ≡ (
        success,
        after_set
            (video_report 0x01 (addr_hi w ∷ addr_lo w ∷ addr_hi y ∷ addr_lo y ∷ color ∷ sel ∷ []))
            h,
      )
  unfolding set_video_in_info
  set_video_in_info_lem w y color sel h =
      send_video_lem 0x01 (addr_hi w) (addr_lo w) (addr_hi y) (addr_lo y) color sel h

  pub set_video_out_info_lem :
      (index color w y : ℕ) (h : History)
      → set_video_out_info k index color w y h ≡ (
        success,
        after_set
            (video_report 0x02 (index ∷ color ∷ addr_hi w ∷ addr_lo w ∷ addr_hi y ∷ addr_lo y ∷ []))
            h,
      )
  unfolding set_video_out_info
  set_video_out_info_lem index color w y h =
      send_video_lem 0x02 index color (addr_hi w) (addr_lo w) (addr_hi y) (addr_lo y) h
