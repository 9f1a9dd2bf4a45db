-- ===== src/Hal/Fifo.antt =====
-- The kernel's kfifo, through which src/usb_hal passes events: a parameter, with what its
-- documentation says of whole events while there is room.
use ms912x.Base.{ℕ, ◌≡◌, ◌<◌, Option, none, some, List, [], ◌∷◌, ◌++◌, length}
use ms912x.Device.Event.{Event}

pub record Fifo : Type 0 where
  pub kfifo_in : List Event → Event → List Event
  pub kfifo_out : List Event → Option (Event × List Event)

-- A FIFO that holds `cap` events.
pub record IsFifo (f : Fifo) (cap : ℕ) : Type 0 where
  pub kfifo_in_room : (q : List Event) (e : Event) → length q < cap → f.kfifo_in q e ≡ q ++ e ∷ []
  pub kfifo_out_nil : f.kfifo_out [] ≡ none
  pub kfifo_out_cons : (e : Event) (q : List Event) → f.kfifo_out (e ∷ q) ≡ some (e, q)
