-- ===== src/Hal/Request/Keepalive.antt =====
-- src/usb_hal/usb_hal_interface.c: what a keepalive does to the two requests.
use ms912x.Base.{
  ℕ, zero, suc, ◌≡◌, refl, inl, inr, true, false, not, ◌&&◌, Option, none, some, arith, Bool-cases,
}
use ms912x.Base.Int.{nonzero, ◌==ℤ◌}
use ms912x.Hal.Dev.{Dev}
use ms912x.Hal.Frame.{frame_header, end_of_buffer}
use ms912x.Hal.Request.{
  e_busy, is_enabled, taken, claim, Sent, pack_keepalive_block, keepalive_claimed, send_keepalive,
}
use ms912x.Hal.Request.Slots.{Claimed, Outcome, claim-Claimed}

keepalive_claimed_lem :
    (d : Dev) (c : Option ℕ × Dev) → Claimed d c → Outcome d (keepalive_claimed c)
unfolding keepalive_claimed taken pack_keepalive_block frame_header end_of_buffer
keepalive_claimed_lem d (none, d') (e, f) = rw e (refl, refl)
keepalive_claimed_lem d (some zero, d') (lt, (free, e)) =
    rw e ((refl, lt), (free, (refl, (refl, (ground arith, refl)))))
keepalive_claimed_lem d (some (suc zero), d') (lt, (free, e)) =
    rw e ((refl, lt), (free, (refl, (refl, (ground arith, refl)))))
keepalive_claimed_lem d (some (suc (suc i)), d') (lt, p) = absurd (omega arith)

-- A keepalive leaves the two requests in the same way: nothing queued and both completions as they
-- were, or a free request that is in use now and holds the block's bytes, as many as its length says,
-- while the other is as it was.
pub send_keepalive-Outcome : (d : Dev) → Outcome d (send_keepalive d)
unfolding send_keepalive
send_keepalive-Outcome d = elim (Bool-cases (is_enabled d)) [
  | inr off ↦ rw off (refl, refl)
  | inl on ↦ rw on (keepalive_claimed_lem d (claim d) (claim-Claimed d))
]

-- The code lets the caller's test of it pass by, and the time of the last frame, the queue,
-- the state and that of the bus stay.
abbrev pub Quiet : Dev → Sent → Type 0
Quiet d s =
    ((nonzero s.code && not (s.code ==ℤ e_busy)) ≡ false)
    × ((s.dev.last_send_jiffies ≡ d.last_send_jiffies)
        × ((s.dev.fifo ≡ d.fifo) × ((s.dev.state ≡ d.state) × (s.dev.suspended ≡ d.suspended))))

keepalive_claimed-Quiet :
    (d : Dev) (c : Option ℕ × Dev) → Claimed d c → Quiet d (keepalive_claimed c)
unfolding keepalive_claimed taken
keepalive_claimed-Quiet d (none, d') (e, f) = rw e (refl, (refl, (refl, (refl, refl))))
keepalive_claimed-Quiet d (some zero, d') (lt, (free, e)) =
    rw e (refl, (refl, (refl, (refl, refl))))
keepalive_claimed-Quiet d (some (suc zero), d') (lt, (free, e)) =
    rw e (refl, (refl, (refl, (refl, refl))))
keepalive_claimed-Quiet d (some (suc (suc i)), d') (lt, p) = absurd (omega arith)

pub send_keepalive-Quiet : (d : Dev) → is_enabled d ≡ true → Quiet d (send_keepalive d)
unfolding send_keepalive
send_keepalive-Quiet d on = rw on (keepalive_claimed-Quiet d (claim d) (claim-Claimed d))
