-- ===== src/Tests/Sim.antt =====
-- An adapter behind the calls of src/usb_hal/usb_device.c: registers that a write report changes and a read
-- report reads. What it holds is read off the history of calls.
use ms912x.Base.{
  ℕ, ◌+◌, ◌*◌, ◌<◌, ◌≡◌, refl, true, ◌&&◌, List, [], ◌∷◌, ◌++◌, arith, ◌==◌, if◌then◌else◌,
}
use ms912x.Base.Int.{pos}
use ms912x.Base.Bits.{bit_and_0xff, bit_and_0xff00}
use ms912x.Usb.{Kernel, History, kmalloc, control, sleep}
use ms912x.Device.Xdata.{op_write_one_byte, addr_hi, addr_lo}
use ms912x.Device.Xdata.Serves.{ServesXdata, range}
use ms912x.Hal.Sysfs.Registers.{StoresXdata}

-- What a report stores at an address that held `old`.
stored : List ℕ → ℕ → ℕ → ℕ
stored (op ∷ hi ∷ lo ∷ v ∷ rest) a old =
    if op == op_write_one_byte && (hi * 256 + lo == a) then v else old
stored other a old = old

-- The registers after a history; they hold `base` at first.
pub memory : (ℕ → ℕ) → History → ℕ → ℕ
unfolding stored
memory base [] a = base a
memory base (control msg ∷ h) a = stored msg.buf a (memory base h a)
memory base (kmalloc n ∷ h) a = memory base h a
memory base (sleep n ∷ h) a = memory base h a

-- The answer to a get report: that of the last set report.
respond : (ℕ → ℕ) → List ℕ → List ℕ
respond mem (op ∷ hi ∷ lo ∷ rest) = op ∷ hi ∷ lo ∷ (range mem (hi * 256 + lo) 4 ++ 0 ∷ [])
respond mem other = other

reply : (ℕ → ℕ) → History → List ℕ → List ℕ
unfolding memory respond
reply base (kmalloc n ∷ (control msg ∷ h)) buf = respond (memory base h) msg.buf
reply base h buf = buf

pub adapter : (ℕ → ℕ) → Kernel
unfolding reply
adapter base = record {
  kmalloc_succeeds = λ h n. true;
  usb_control_msg = λ h msg. (pos 8, if msg.pipe_in then reply base h msg.buf else msg.buf);
}

join_lem : (addr : ℕ) → addr < 0x1_0000 → addr_hi addr * 256 + addr_lo addr ≡ addr
join_lem addr h = omega (arith, bit_and_0xff, bit_and_0xff00)

pub serves : (base : ℕ → ℕ) → ServesXdata (adapter base) (memory base)
unfolding adapter memory
serves base = record {
  allocates = λ h n. refl;
  accepts = λ h is_set report. refl;
  answers = λ h addr lt. rw (join_lem addr lt) refl;
  steady = λ h addr. refl;
}

pub stores_writes : (base : ℕ → ℕ) → StoresXdata (memory base)
unfolding memory stored
stores_writes base = record {
  stores = λ h addr v a lt. let at_ = join_lem addr lt in rw at_ (ground arith);
}
