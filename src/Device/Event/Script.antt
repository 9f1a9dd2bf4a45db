-- ===== src/Device/Event/Script.antt =====
-- src/usb_hal/usb_device.c: the whole transcript of an enable and of a disable event, on a device that
-- serves its registers.
use ms912x.Base.{ℕ, ◌≡◌, List, [], ◌∷◌}
use ms912x.Base.Int.{ℤ}
use ms912x.Usb.{Kernel, History, M, sleep, success}
use ms912x.Device.Xdata.{addr_hi, addr_lo, write_request}
use ms912x.Device.Xdata.Serves.{ServesXdata, after_read, after_set}
use ms912x.Device.Command.{video_report, screen_reg, screen_byte}
use ms912x.Device.Command.Laws.{
  set_trans_enable_lem, set_video_enable_lem, set_power_enable_lem, set_trans_mode_lem,
  set_video_in_info_lem, set_video_out_info_lem, set_screen_enable_lem,
}
use ms912x.Device.Event.{
  Event, check, event_enable, event_disable, event_proc, event_type_enable, event_type_disable,
}

-- A command with one byte of payload.
abbrev one_byte : ℕ → ℕ → List ℕ
one_byte op v = video_report op (v ∷ 0 ∷ 0 ∷ 0 ∷ 0 ∷ 0 ∷ [])

abbrev pub power_report : ℕ → List ℕ
power_report on = video_report 0x07 (on ∷ 2 ∷ 0 ∷ 0 ∷ 0 ∷ 0 ∷ [])

-- The mute register read and written back.
abbrev mute : (History → ℕ → ℕ) → ℕ → ℕ → History → History
mute mem chip port h =
    after_set
      (write_request (screen_reg chip port).addr
        (screen_byte 0 (screen_reg chip port) (mem h (screen_reg chip port).addr)))
      (after_read (screen_reg chip port).addr h)

-- Transfer off, video off, screen muted.
abbrev pub stop_transcript : (History → ℕ → ℕ) → ℕ → ℕ → History → History
stop_transcript mem chip port h =
    mute mem chip port (after_set (one_byte 0x05 0) (after_set (one_byte 0x04 0) h))

-- Power on between two pauses; the transfer mode; the input and the output mode.
abbrev pub setup_transcript : Event → History → History
setup_transcript e h =
    after_set
      (video_report 0x02 (
        e.para.vic
        ∷ e.para.color_out
        ∷ addr_hi e.para.width
        ∷ addr_lo e.para.width
        ∷ addr_hi e.para.height
        ∷ addr_lo e.para.height
        ∷ []))
      (after_set
        (video_report 0x01 (
          addr_hi e.para.width
          ∷ addr_lo e.para.width
          ∷ addr_hi e.para.height
          ∷ addr_lo e.para.height
          ∷ e.para.color_in
          ∷ 0
          ∷ []))
        (after_set (one_byte 0x03 3) (sleep 50 ∷ after_set (power_report 1) (sleep 50 ∷ h))))

-- Transfer on, a pause, video off and screen muted again until the first frame.
abbrev pub start_transcript : (History → ℕ → ℕ) → ℕ → ℕ → History → History
start_transcript mem chip port h =
    mute mem chip port (after_set (one_byte 0x05 0) (sleep 50 ∷ after_set (one_byte 0x04 1) h))

check_lem : (m rest : M ℤ) {h h' : History} → m h ≡ (success, h') → check m rest h ≡ rest h'
unfolding check
check_lem m rest e = rw e

module _ {k : Kernel} {mem : History → ℕ → ℕ} (s : ServesXdata k mem) where
  -- For a kernel that grants every allocation, and a bus and a device on which every transfer
  -- succeeds and every read gives the bytes of the device's memory: in block mode (3) an enable event
  -- succeeds, and the calls made are exactly, in this order: transfer off, video off, mute; power on
  -- between two pauses, transfer mode, input mode, output mode; transfer on, a pause, video off, mute.
  pub event_proc_transcript :
      (e : Event) (chip port : ℕ) (h : History)
      → e.para.trans_mode ≡ 3
      → e.kind ≡ event_type_enable
      → event_proc k e chip port h ≡ (
        success,
        start_transcript mem chip port (setup_transcript e (stop_transcript mem chip port h)),
      )
  unfolding event_proc event_enable
  event_proc_transcript e chip port h mode kind = rw (
    kind,
    set_trans_enable_lem s,
    set_video_enable_lem s,
    set_screen_enable_lem s,
    set_power_enable_lem s,
    mode,
    set_trans_mode_lem s,
    set_video_in_info_lem s,
    set_video_out_info_lem s,
    set_trans_enable_lem s,
    set_video_enable_lem s,
    set_screen_enable_lem s,
  )

  -- Under the same conditions a disable event succeeds, and the calls made are exactly, in this order: transfer off, video off,
  -- mute, power off.
  pub event_proc_disable :
      (e : Event) (chip port : ℕ) (h : History)
      → e.kind ≡ event_type_disable
      → event_proc k e chip port h
        ≡ (success, after_set (power_report 0) (stop_transcript mem chip port h))
  unfolding event_proc event_disable
  event_proc_disable e chip port h kind = rw (
    kind,
    set_trans_enable_lem s,
    set_video_enable_lem s,
    set_screen_enable_lem s,
    set_power_enable_lem s,
  )
