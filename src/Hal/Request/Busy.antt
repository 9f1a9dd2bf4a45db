-- ===== src/Hal/Request/Busy.antt =====
-- src/usb_hal/usb_hal_interface.c: a picture is dropped while both requests are in use.
use ms912x.Base.{
  ℕ, ◌+◌, ◌-◌, ◌*◌, ◌%◌, ◌≤◌, ◌<◌, ◌≡◌, refl, inl, inr, true, false, none, some, List, arith, ltb,
  leb, ◌==◌, Bool-cases,
}
use ms912x.Base.Int.{pos}
use ms912x.Base.Bits.{bit_and_0xffc, bit_and_0xffe}
use ms912x.Hal.Dev.{Dev}
use ms912x.Hal.Request.{
  is_enabled, slot, claim, claim_from, clip_x2, clip_y2, busy, send_claimed, send_clipped,
  send_xrgb8888_rect,
}

slot_in_use :
    (d : Dev) (i : ℕ) → d.request0.done ≡ false → d.request1.done ≡ false → (slot d i).done ≡ false
slot_in_use d i a b = elim (Bool-cases (i == 0)) [ inl e ↦ rw e a | inr e ↦ rw e b ]

claim-none : (d : Dev) → d.request0.done ≡ false → d.request1.done ≡ false → claim d ≡ (none, d)
unfolding claim claim_from
claim-none d a b =
    rw
      (
        slot_in_use d ((d.current_request + 0) % 2) a b,
        slot_in_use d ((d.current_request + 1) % 2) a b,
      )
      refl

-- The adapter shows pictures of this size, has shown one, and both requests are in use.
pub record IsBusy (d : Dev) (width height : ℕ) : Type 0 where
  pub enabled : is_enabled d ≡ true
  pub width_ : d.mode.width ≡ width
  pub height_ : d.mode.height ≡ height
  pub shown : d.first_buf_send ≡ true
  pub request0 : d.request0.done ≡ false
  pub request1 : d.request1.done ≡ false

-- A whole picture of an even width that is sent to a busy adapter is dropped, with code 0.
pub send-IsBusy :
    (ms : ℕ) (d : Dev) (buf : List ℕ) (width height pitch : ℕ)
    → IsBusy d width height
    → 0 < width
    → width ≤ 4092
    → width % 2 ≡ 0
    → 0 < height
    → height ≤ 4094
    → width * 4 ≤ pitch
    → send_xrgb8888_rect ms d buf width height pitch (pos 0) (pos 0) width height
      ≡ some (busy d false)
unfolding send_xrgb8888_rect send_clipped send_claimed
send-IsBusy ms d buf width height pitch b w w' wm h h' wide =
    let same_w : (width == d.mode.width) ≡ true = ground (arith, b.width_) in
    let same_h : (height == d.mode.height) ≡ true = ground (arith, b.height_) in
    let fits : ltb pitch (width * 4) ≡ false = ground arith in
    let x2 : clip_x2 width width ≡ width = omega (arith, bit_and_0xffc (width + 3)) in
    let y2 : clip_y2 height height ≡ height = omega (arith, bit_and_0xffe (height + 1)) in
    let ex : leb width 0 ≡ false = ground arith in
    let ey : leb height 0 ≡ false = ground arith in
    let even : ((width - 0) % 2 == 0) ≡ true = ground arith in
    simp
      (
        b.enabled,
        same_w,
        same_h,
        fits,
        x2,
        y2,
        ex,
        ey,
        even,
        claim-none d b.request0 b.request1,
        b.shown,
      )
      refl
