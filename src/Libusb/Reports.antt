-- ===== src/Libusb/Reports.antt =====
-- The report functions of hidapi/libusb/hid.c: `hid_write`, `hid_send_feature_report`,
-- `hid_get_feature_report`, `hid_send_output_report`, `hid_get_input_report`.
-- libusb is a parameter: a transfer takes a state of the world, and answers with a libusb error or
-- with a number of bytes. Bytes are `unsigned char` values; `none` is a NULL pointer.
pub mod Contract
use usb_hid_tool.Prelude.{
  ℕ, suc, ◌+◌, ◌*◌, Bool, true, false, List, [], ◌∷◌, Option, none, some, ltb, ◌==◌, if◌then◌else◌,
  length,
}
use usb_hid_tool.Prelude.Int.{ℤ, pos, negsuc, minus_one}
use usb_hid_tool.Libusb.Error.{
  Context, write, send_feature, get_feature, send_output, get_input, zero_buffer, ErrorCtx,
  register_libusb_error, register_string_error,
}

abbrev pub Bytes : Type 0
Bytes = List ℕ

-- The fields of `struct hid_device_` that sending uses.
pub record Device : Type 0 where
  pub output_endpoint : ℕ
  pub interface : ℕ
  pub error : ErrorCtx

-- `failed n` is the error -(n + 1).
pub data Reply (A : Type 0) : Type 0 where
  failed : ℕ → Reply A
  returned : A → Reply A

-- The direction and type of a control request, its `wValue` and its `wIndex`.
pub data Request : Type 0 where
  set_report get_report : ℕ → ℕ → Request

pub record Libusb (W : Type 0) : Type 0 where
  -- `libusb_interrupt_transfer` to an endpoint: `actual_length`
  pub interrupt_transfer : W → ℕ → Bytes → Reply ℕ × W
  -- `libusb_control_transfer` over a buffer: the number of bytes, and the buffer afterwards
  pub control_transfer : W → Request → Bytes → Reply (ℕ × Bytes) × W

-- 3 for a feature report, 2 for output, 1 for input.
pub data Kind : Type 0 where
  input output feature : Kind

abbrev kind_number : Kind → ℕ
kind_number input = 1
kind_number output = 2
kind_number feature = 3

-- `(kind << 8) | report_number`
abbrev report_value : Kind → ℕ → ℕ
report_value k n = kind_number k * 256 + n

pub record Sent (W : Type 0) : Type 0 where
  pub result : ℤ
  pub buffer : Bytes
  pub dev : Device
  pub world : W

abbrev pub sent : {W : Type 0} → ℤ → Bytes → Device → W → Sent W
sent r b dev w = record { result = r; buffer = b; dev = dev; world = w }

abbrev with_libusb_error : Device → ℤ → Option Context → Device
with_libusb_error dev code c = record dev { error = register_libusb_error dev.error code c }

abbrev zero_buffer_error : Device → Device
zero_buffer_error dev = record dev { error = register_string_error true dev.error zero_buffer }

module _ {W : Type 0} (usb : Libusb W) where
  -- The body of the two sending functions. Report number 0 is not sent, and the result is the whole
  -- length whatever number the transfer reports.
  unfoldable pub send_report : Kind → Context → Device → Option Bytes → W → Sent W
  send_report k c dev none w = sent minus_one [] (zero_buffer_error dev) w
  send_report k c dev (some []) w = sent minus_one [] (zero_buffer_error dev) w
  send_report k c dev (some (n ∷ bs)) w =
      let clear : Device = with_libusb_error dev (pos 0) none in
      let payload : Bytes = if n == 0 then bs else n ∷ bs in
      let (r, w') = usb.control_transfer w (set_report (report_value k n) dev.interface) payload in
      elim r [
        | failed e ↦ sent minus_one (n ∷ bs) (with_libusb_error clear (negsuc e) (some c)) w'
        | returned _ ↦ sent (pos (suc (length bs))) (n ∷ bs) clear w'
      ]

  -- The body of the two getting functions. With report number 0 the report is stored behind the
  -- first byte, which stays 0 and is counted.
  unfoldable pub fetch_report : Kind → Context → Device → Option Bytes → W → Sent W
  fetch_report k c dev none w = sent minus_one [] (zero_buffer_error dev) w
  fetch_report k c dev (some []) w = sent minus_one [] (zero_buffer_error dev) w
  fetch_report k c dev (some (n ∷ bs)) w =
      let clear : Device = with_libusb_error dev (pos 0) none in
      let target : Bytes = if n == 0 then bs else n ∷ bs in
      let (r, w') = usb.control_transfer w (get_report (report_value k n) dev.interface) target in
      elim r [
        | failed e ↦ sent minus_one (n ∷ bs) (with_libusb_error clear (negsuc e) (some c)) w'
        | returned (m, got) ↦
            if n == 0 then sent (pos (m + 1)) (n ∷ got) clear w' else sent (pos m) got clear w'
      ]

  unfoldable pub hid_send_feature_report : Device → Option Bytes → W → Sent W
  hid_send_feature_report = send_report feature send_feature

  unfoldable pub hid_get_feature_report : Device → Option Bytes → W → Sent W
  hid_get_feature_report = fetch_report feature get_feature

  unfoldable pub hid_send_output_report : Device → Option Bytes → W → Sent W
  hid_send_output_report = send_report output send_output

  unfoldable pub hid_get_input_report : Device → Option Bytes → W → Sent W
  hid_get_input_report = fetch_report input get_input

  -- The part of `hid_write` behind its first test.
  unfoldable pub write_interrupt : Device → Option Bytes → W → Sent W
  write_interrupt dev none w = sent minus_one [] (zero_buffer_error dev) w
  write_interrupt dev (some []) w = sent minus_one [] (zero_buffer_error dev) w
  write_interrupt dev (some (n ∷ bs)) w =
      let clear : Device = with_libusb_error dev (pos 0) none in
      let payload : Bytes = if n == 0 then bs else n ∷ bs in
      let (r, w') = usb.interrupt_transfer w dev.output_endpoint payload in
      elim r [
        | failed e ↦ sent minus_one (n ∷ bs) (with_libusb_error clear (negsuc e) (some write)) w'
        | returned m ↦ sent (pos (if n == 0 then m + 1 else m)) (n ∷ bs) clear w'
      ]

  -- Without an interrupt endpoint for output the control endpoint is used.
  unfoldable pub hid_write : Device → Option Bytes → W → Sent W
  hid_write dev buf w =
      if dev.output_endpoint == 0
      then hid_send_output_report dev buf w
      else write_interrupt dev buf w
