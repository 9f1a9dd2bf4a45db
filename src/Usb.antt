-- ===== src/Usb.antt =====
-- The kernel services that usb_device.c calls (kmalloc, usb_control_msg, msleep), as parameters, and
-- `ms9132_hid_report`, the one function that calls the bus. A command is a function on the history
-- of calls made so far, newest first; the kernel's answers may depend on that whole history.
use ms912x.Base.{ℕ, Bool, true, false, List, ◌∷◌, ◌++◌, take, drop, if◌then◌else◌}
use ms912x.Base.Int.{ℤ, pos, negsuc}

-- The arguments of `usb_control_msg`.
pub record ControlMsg : Type 0 where
  pub pipe_in : Bool
  pub request : ℕ
  pub request_type : ℕ
  pub value : ℕ
  pub index : ℕ
  pub buf : List ℕ
  pub len : ℕ
  pub timeout : ℕ

pub data Io : Type 0 where
  kmalloc : ℕ → Io
  control : ControlMsg → Io
  sleep : ℕ → Io

abbrev pub History : Type 0
History = List Io

-- The answers: does an allocation succeed; what a transfer returns, and its buffer afterwards.
pub record Kernel : Type 0 where
  pub kmalloc_succeeds : History → ℕ → Bool
  pub usb_control_msg : History → ControlMsg → ℤ × List ℕ

abbrev pub M : Type 0 → Type 0
M A = History → A × History

infixl 5 ◌>>=◌ ◌>>◌
abbrev pub ◌>>=◌ : {A B : Type 0} → M A → (A → M B) → M B
◌>>=◌ m f h = let (a, h') = m h in f a h'

abbrev pub ◌>>◌ : {A B : Type 0} → M A → M B → M B
m >> k = m >>= λ _. k

abbrev pub pure : {A : Type 0} → A → M A
pure a h = (a, h)

abbrev pub msleep : ℕ → M (Unit {0})
msleep ms h = (tt, sleep ms ∷ h)

-- Return codes. EINVAL is 22, ENOMEM is 12, ERANGE is 34, and so on.
abbrev pub success : ℤ
success = pos 0

abbrev pub minus_one : ℤ
minus_one = negsuc 0

abbrev pub e_inval : ℤ
e_inval = negsuc 21

abbrev pub e_nomem : ℤ
e_nomem = negsuc 11

abbrev pub e_range : ℤ
e_range = negsuc 33

-- USB_DIR_OUT | USB_TYPE_CLASS | USB_RECIP_INTERFACE and its USB_DIR_IN twin; the HID requests.
abbrev pub request_type_set : ℕ
request_type_set = 0x21

abbrev pub request_type_get : ℕ
request_type_get = 0xa1

abbrev pub hid_req_get_report : ℕ
hid_req_get_report = 0x01

abbrev pub hid_req_set_report : ℕ
hid_req_set_report = 0x09

abbrev pub report_value : ℕ
report_value = 0x300

-- USB_CTRL_SET_TIMEOUT and USB_CTRL_GET_TIMEOUT.
abbrev pub ctrl_timeout : ℕ
ctrl_timeout = 5000

abbrev pub report_msg : Bool → List ℕ → ℕ → ControlMsg
report_msg is_set buf len = record {
  pipe_in = if is_set then false else true;
  request = if is_set then hid_req_set_report else hid_req_get_report;
  request_type = if is_set then request_type_set else request_type_get;
  value = report_value;
  index = 0;
  buf = buf;
  len = len;
  timeout = ctrl_timeout;
}

abbrev pub negative : ℤ → Bool
negative (pos n) = false
negative (negsuc n) = true

-- What the transfer's answer makes of the caller's report.
abbrev pub report_result : Bool → List ℕ → ℕ → ℤ × List ℕ → ℤ × List ℕ
report_result is_set report len (rtn, buf) =
    if negative rtn
    then (pos 1, report)
    else (success, (if is_set then report else take len buf ++ drop len report))

-- `ms9132_hid_report`: the code, and the report that the caller's buffer holds afterwards.
unfoldable pub hid_report : Kernel → Bool → List ℕ → ℕ → M (ℤ × List ℕ)
hid_report k is_set report len h =
    if k.kmalloc_succeeds h len
    then (
      report_result is_set report len (k.usb_control_msg (kmalloc len ∷ h) msg),
      control msg ∷ kmalloc len ∷ h,
    )
    else ((e_nomem, report), kmalloc len ∷ h)
  where
    msg : ControlMsg
    msg = report_msg is_set (take len report) len
