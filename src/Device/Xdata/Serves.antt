-- ===== src/Device/Xdata/Serves.antt =====
-- src/usb_hal/usb_device.c: a device that serves its registers over the bus, as a hypothesis on the
-- kernel's answers, and what one exchange with it does.
use ms912x.Base.{
  ℕ, zero, suc, ◌+◌, ◌≡◌, ◌≤◌, ◌<◌, Bool, true, false, List, [], ◌∷◌, ◌++◌, take, arith,
}
use ms912x.Usb.{Kernel, History, kmalloc, control, hid_report, report_msg, negative, success}
use ms912x.Device.Xdata.{write_request, xdata_write_byte}
use ms912x.Device.Xdata.{read_request, read_xdata_once, exchange, op_read_data, addr_hi, addr_lo}

-- The `n` bytes of memory from `a` on.
abbrev pub range : (ℕ → ℕ) → ℕ → ℕ → List ℕ
range mem a zero = []
range mem a (suc n) = mem a ∷ range mem (a + 1) n

-- The device's answer to a read request: the address again, and four bytes of memory.
abbrev pub answer : (ℕ → ℕ) → ℕ → List ℕ
answer mem addr = op_read_data ∷ addr_hi addr ∷ addr_lo addr ∷ (range mem addr 4 ++ 0 ∷ [])

-- The four calls of a read at `addr`, newest first.
abbrev pub after_read : ℕ → History → History
after_read addr h =
    control (report_msg false (read_request addr) 8)
    ∷ kmalloc 8
    ∷ control (report_msg true (read_request addr) 8)
    ∷ kmalloc 8
    ∷ h

-- Allocations and transfers succeed, a get report after a read request is answered from the memory
-- that the calls so far have left, and a read leaves that memory alone.
pub record ServesXdata (k : Kernel) (mem : History → ℕ → ℕ) : Type 0 where
  pub allocates : (h : History) (n : ℕ) → k.kmalloc_succeeds h n ≡ true
  pub accepts :
      (h : History) (is_set : Bool) (report : List ℕ)
      → negative (k.usb_control_msg h (report_msg is_set report 8)).0 ≡ false
  pub answers :
      (h : History) (addr : ℕ)
      → addr < 0x1_0000
      → (k.usb_control_msg
          (kmalloc 8 ∷ control (report_msg true (read_request addr) 8) ∷ kmalloc 8 ∷ h)
          (report_msg false (read_request addr) 8)).1
        ≡ answer (mem h) addr
  pub steady : (h : History) (addr : ℕ) → mem (after_read addr h) ≡ mem h

-- The two calls of a set report of eight bytes.
abbrev pub after_set : List ℕ → History → History
after_set report h = control (report_msg true report 8) ∷ kmalloc 8 ∷ h

module _ {k : Kernel} {mem : History → ℕ → ℕ} (s : ServesXdata k mem) where
  pub set_lem :
      (report : List ℕ) (h : History)
      → hid_report k true report 8 h
        ≡ ((success, report), control (report_msg true (take 8 report) 8) ∷ kmalloc 8 ∷ h)
  unfolding hid_report
  set_lem report h = rw (s.allocates h 8, s.accepts (kmalloc 8 ∷ h) true (take 8 report))

  get_lem :
      (addr : ℕ) (h : History)
      → addr < 0x1_0000
      → hid_report k false
          (read_request addr)
          8
          (control (report_msg true (read_request addr) 8) ∷ kmalloc 8 ∷ h)
        ≡ ((success, answer (mem h) addr), after_read addr h)
  unfolding hid_report
  get_lem addr h lt =
      rw (s.allocates _ 8, s.accepts _ false (read_request addr), s.answers h addr lt)

  exchange_lem :
      (addr : ℕ) (h : History)
      → addr < 0x1_0000
      → exchange k (read_request addr) h ≡ ((success, answer (mem h) addr), after_read addr h)
  exchange_lem addr h lt = rw (set_lem (read_request addr) h, get_lem addr h lt)

  pub once_lem :
      (addr c : ℕ) (h : History)
      → addr < 0x1_0000
      → c ≤ 4
      → read_xdata_once k addr c h ≡ ((success, range (mem h) addr c), after_read addr h)
  unfolding read_xdata_once
  once_lem addr zero h lt le = rw (exchange_lem addr h lt)
  once_lem addr (suc zero) h lt le = rw (exchange_lem addr h lt)
  once_lem addr (suc (suc zero)) h lt le = rw (exchange_lem addr h lt)
  once_lem addr (suc (suc (suc zero))) h lt le = rw (exchange_lem addr h lt)
  once_lem addr (suc (suc (suc (suc zero)))) h lt le = rw (exchange_lem addr h lt)
  once_lem addr (suc (suc (suc (suc (suc c))))) h lt le = absurd (omega arith)

  pub xdata_write_byte_lem :
      (addr v : ℕ) (h : History)
      → xdata_write_byte k addr v h ≡ (success, after_set (write_request addr v) h)
  unfolding xdata_write_byte
  xdata_write_byte_lem addr v h = rw (set_lem (write_request addr v) h)
