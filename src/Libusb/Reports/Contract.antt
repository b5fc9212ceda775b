-- ===== src/Libusb/Reports/Contract.antt =====
-- What the libusb backend moves for a report, and what it returns.
use usb_hid_tool.Prelude.{
  ℕ, suc, ◌+◌, ◌*◌, ◌≤◌, ◌≡◌, ◌≢◌, ◌⊎◌, Bool, true, false, [], ◌∷◌, some, ◌==◌, if◌then◌else◌,
  length, arith,
}
use usb_hid_tool.Prelude.Int.{pos, minus_one, is_neg, to_nat}
use usb_hid_tool.Libusb.Error.{register_libusb_error, hid_libusb_error}
use usb_hid_tool.Libusb.Reports.{
  Bytes, Device, Reply, failed, returned, Request, set_report, get_report, Libusb, Sent,
  send_report, fetch_report, hid_send_feature_report, hid_get_feature_report,
  hid_send_output_report, hid_get_input_report, write_interrupt, hid_write,
}

-- The bytes that go on the wire for a buffer: without a leading report number 0.
abbrev wire : Bytes → Bytes
wire [] = []
wire (n ∷ bs) = if n == 0 then bs else n ∷ bs

-- -1 with a libusb error code, or a number with code 0.
abbrev pub Reported : {W : Type 0} → Sent W → Type 0
Reported s =
    ((s.result ≡ minus_one) × (hid_libusb_error s.dev.error ≢ pos 0))
    ⊎ ((is_neg s.result ≡ false) × (hid_libusb_error s.dev.error ≡ pos 0))

-- A transfer moves at most the bytes it is asked for, and keeps the size of the buffer.
abbrev Moves : ℕ → Reply (ℕ × Bytes) → Type 0
Moves size (failed e) = Unit
Moves size (returned (m, got)) = (m ≤ size) × (length got ≡ size)

abbrev pub Bounded : {W : Type 0} → Libusb W → Type 0
Bounded {W} usb =
    (w : W) (q : Request) (buf : Bytes) → Moves (length buf) (usb.control_transfer w q buf).0

module _ {W : Type 0} (usb : Libusb W) where
  -- Sending a feature or output report makes one control transfer, of the bytes without a leading
  -- report number 0, whose value holds the kind (3 or 2) above the report number. The result is -1
  -- exactly when an error is left, and else the length of the buffer.
  send_report-Reported :
      (dev : Device) (n : ℕ) (bs : Bytes) (w : W) (feature : Bool)
      → let s =
          (if feature
            then hid_send_feature_report usb dev (some (n ∷ bs)) w
            else hid_send_output_report usb dev (some (n ∷ bs)) w) in
        Reported s
        × (s.result ≢ minus_one → s.result ≡ pos (length (n ∷ bs)))
        × (s.world
            ≡ (usb.control_transfer w
                (set_report ((if feature then 3 else 2) * 256 + n) dev.interface)
                (wire (n ∷ bs))).1)
  unfolding hid_send_feature_report hid_send_output_report send_report register_libusb_error
      hid_libusb_error
  send_report-Reported dev n bs w true = ground arith
  send_report-Reported dev n bs w false = ground arith

  -- Getting a feature or input report makes one control transfer into the buffer, behind a leading
  -- report number 0. When no transfer moves more bytes than it is asked for and each keeps the size
  -- of its buffer: the result is -1 exactly when an error is left, and else at most the length of
  -- the buffer. The buffer keeps its length.
  fetch_report-Reported :
      (dev : Device) (n : ℕ) (bs : Bytes) (w : W) (feature : Bool)
      → Bounded usb
      → let s =
          (if feature
            then hid_get_feature_report usb dev (some (n ∷ bs)) w
            else hid_get_input_report usb dev (some (n ∷ bs)) w) in
        Reported s
        × (to_nat s.result ≤ length (n ∷ bs))
        × (length s.buffer ≡ length (n ∷ bs))
        × (s.world
            ≡ (usb.control_transfer w
                (get_report ((if feature then 3 else 1) * 256 + n) dev.interface)
                (wire (n ∷ bs))).1)
  unfolding hid_get_feature_report hid_get_input_report fetch_report register_libusb_error
      hid_libusb_error
  fetch_report-Reported dev n bs w true b = ground (
    arith,
    b w (get_report (3 * 256 + n) dev.interface) bs,
    b w (get_report (3 * 256 + n) dev.interface) (n ∷ bs),
  )
  fetch_report-Reported dev n bs w false b = ground (
    arith,
    b w (get_report (1 * 256 + n) dev.interface) bs,
    b w (get_report (1 * 256 + n) dev.interface) (n ∷ bs),
  )

  -- `hid_write` without an output endpoint is `hid_send_output_report`. With one it makes one
  -- interrupt transfer to it, of the bytes without a leading report number 0: the result is -1
  -- exactly when an error is left, and else the bytes moved and one for a leading report number 0.
  pub hid_write-Wire :
      (dev : Device) (n : ℕ) (bs : Bytes) (w : W)
      → let s = hid_write usb dev (some (n ∷ bs)) w in
        let t = usb.interrupt_transfer w dev.output_endpoint (wire (n ∷ bs)) in
        Reported s
        × (dev.output_endpoint ≡ 0 → s ≡ hid_send_output_report usb dev (some (n ∷ bs)) w)
        × (dev.output_endpoint ≢ 0
            → (s.world ≡ t.1)
              × ((m : ℕ) → t.0 ≡ returned m → s.result ≡ pos (if n == 0 then suc m else m)))
  unfolding hid_write write_interrupt hid_send_output_report send_report register_libusb_error
      hid_libusb_error
  hid_write-Wire dev n bs w = ground arith
