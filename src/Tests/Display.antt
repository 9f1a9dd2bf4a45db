-- ===== src/Tests/Display.antt =====
-- Runs of src/usb_hal/usb_hal_interface.c: frames, requests and the cursor.
use ms912x.Base.{
  ℕ, zero, suc, ◌+◌, ◌*◌, ◌≡◌, refl, sym, ◌∙◌, ◌≢◌, true, false, some, List, [], arith,
  if◌then◌else◌, length, get_elem?, set, replicate, length-set, get_elem?-set_self,
  get_elem?-set_ne, length-replicate,
}
use ms912x.Base.Int.{pos, negsuc}
use ms912x.Usb.{success}
use ms912x.Hal.Dev.{Dev}
use ms912x.Hal.Frame.Safety.{FitsCursor, Returns}
use ms912x.Hal.Request.{send_xrgb8888_rect, Transfer, frame_request_work}
use ms912x.Hal.Request.Slots.{Outcome, send_xrgb8888_rect-Outcome}
use ms912x.Hal.Request.Work.{Worked, frame_request_work-Worked}
use ms912x.Hal.Request.{is_enabled}
use ms912x.Hal.Cursor.{cursor_set, e_perm}
use ms912x.Hal.Cursor.Covers.{HasPixel, cursor_set-HasPixel}
use ms912x.Hal.Cursor.Bounds.{Dark, cursor_set-FitsCursor}
use ms912x.Tests.Fixtures.{cursor-Fits, free_request, picture, quiet, running}

send_xrgb8888_rect-Outcome_example :
    Returns (Outcome running) (send_xrgb8888_rect 5 running picture 16 4 64 (pos 2) (negsuc 0) 15 3)
send_xrgb8888_rect-Outcome_example =
    send_xrgb8888_rect-Outcome 5 running picture 16 4 64 (pos 2) (negsuc 0) 15 3 cursor-Fits
      (omega (arith, length-replicate {A = ℕ} 256 200))

abbrev good_transfer : Transfer
good_transfer = record { init = success; status = success; ms = 7; now = 50 }

-- The other request's frame is the first one of a screen that is still off.
abbrev starting : Dev
starting = record running {
  first_buf_send = false;
  request1 = record free_request { done = false; first_frame = true };
}

frame_request_work-Worked_example :
    Worked good_transfer 1 starting (frame_request_work quiet good_transfer 1 starting []).0
frame_request_work-Worked_example =
    frame_request_work-Worked quiet good_transfer 1 starting [] (omega arith)

replicate_lem : (n v i a : ℕ) → get_elem? (replicate n v) i ≡ some a → a ≡ v
replicate_lem zero v i a e = cc
replicate_lem (suc n) v zero a e = cc
replicate_lem (suc n) v (suc i) a e = replicate_lem n v i a e

-- A picture of faint pixels.
abbrev faint : List ℕ
faint = replicate (64 * 64 * 4) 9

faint-Dark : (i : ℕ) → Dark faint i
faint-Dark i a e = omega (arith, replicate_lem (64 * 64 * 4) 9 (i + 3) a e)

-- One pixel of them is bright, in row 20 and column 10.
abbrev dot : List ℕ
dot = set faint (10 * 4 + 20 * 256 + 3) 200

dot-length : length dot ≡ 64 * 64 * 4
dot-length = length-set faint (10 * 4 + 20 * 256 + 3) 200 ∙ length-replicate {A = ℕ} (64 * 64 * 4) 9

dot-bright : get_elem? dot (10 * 4 + 20 * 256 + 3) ≡ some 200
dot-bright =
    get_elem?-set_self faint (10 * 4 + 20 * 256 + 3) 200
      (omega (arith, length-replicate {A = ℕ} (64 * 64 * 4) 9))

dot-Dark : (j : ℕ) → Dark dot (63 * 4 + j * 256)
dot-Dark j a e =
    let apart : 10 * 4 + 20 * 256 + 3 ≢ 63 * 4 + j * 256 + 3 = λ z. omega arith in
    faint-Dark (63 * 4 + j * 256) a (sym (get_elem?-set_ne faint 200 apart) ∙ e)

cursor_set-HasPixel_example :
    Returns (λ (rtn, d'). HasPixel 20 10 d'.cursor) (cursor_set running (some dot))
cursor_set-HasPixel_example =
    cursor_set-HasPixel running dot 20 10 200 refl dot-length (λ j h. dot-Dark j) (omega arith)
      (omega arith) dot-bright (omega arith)

cursor_set-FitsCursor_example :
    Returns
      (λ (rtn, d'). FitsCursor d'.cursor × (rtn ≡ (if is_enabled running then success else e_perm)))
      (cursor_set running (some faint))
cursor_set-FitsCursor_example =
    cursor_set-FitsCursor running faint (length-replicate {A = ℕ} (64 * 64 * 4) 9)
      (λ c h. faint-Dark (63 * 256 + c * 4)) (λ r h. faint-Dark (63 * 4 + r * 256)) cursor-Fits
