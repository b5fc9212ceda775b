-- ===== src/Linux/Device/Contract.antt =====
-- What a caller of the hidraw backend may rely on: results, buffers and recorded errors.
use usb_hid_tool.Prelude.{
  ℕ, ◌≤◌, ◌≡◌, ◌≢◌, ◌⊎◌, refl, Bool, true, false, [], Option, none, some, ◌==◌, if◌then◌else◌,
  length, arith,
}
use usb_hid_tool.Prelude.Int.{ℤ, pos, minus_one, to_nat, is_neg}
use usb_hid_tool.Linux.Device.{
  Bytes, Request, set_feature, get_feature, set_output, get_input, Device, Reply, failed, returned,
  Kernel, Got, hid_set_nonblocking, hid_write, read_report, poll_report, hid_read_timeout, hid_read,
  report_ioctl, hid_send_feature_report, hid_get_feature_report, hid_send_output_report,
  hid_get_input_report, hid_error, hid_read_error,
}

-- `read(2)` stores no more bytes than the buffer holds.
abbrev Fits : ℕ → Reply Bytes → Type 0
Fits size (failed e) = Unit
Fits size (returned bytes) = length bytes ≤ size

abbrev pub ReadFits : {W : Type 0} → Kernel W → Type 0
ReadFits {W} k = (w : W) (fd size : ℕ) → Fits size (k.read w fd size).0

module _ {W : Type 0} (k : Kernel W) (f : ReadFits k) where
  abbrev Failure : Got W → Type 0
  Failure g = (g.result ≡ minus_one) × (g.stored ≡ []) × (hid_read_error g.dev ≢ none)

  abbrev Success : ℕ → Got W → Type 0
  Success size g =
      (g.result ≡ pos (length g.stored)) × (length g.stored ≤ size) × (hid_read_error g.dev ≡ none)

  -- Only the read error of the device may change.
  abbrev Keeps : Device → Device → Type 0
  Keeps dev dev' =
      (dev'.device_handle ≡ dev.device_handle)
      × (dev'.blocking ≡ dev.blocking)
      × (dev'.last_error ≡ dev.last_error)

  abbrev pub Outcome : Device → ℕ → Got W → Type 0
  Outcome dev size g = (Failure g ⊎ Success size g) × Keeps dev g.dev

  read_report-Outcome :
      (dev : Device) (size : ℕ) (w : W)
      → dev.last_read_error ≡ none
      → Outcome dev size (read_report k dev size w)
  unfolding read_report hid_read_error
  read_report-Outcome dev size w e = ground (arith, f w dev.device_handle size)

  poll_report-Outcome :
      (dev : Device) (size ms : ℕ) (w : W)
      → dev.last_read_error ≡ none
      → Outcome dev size (poll_report k dev size ms w)
  unfolding poll_report hid_read_error
  poll_report-Outcome dev size ms w e =
      ground (arith, read_report-Outcome dev size (k.poll w dev.device_handle ms).1 e)

  -- Where `read` stores no more bytes than it is asked for: a read fails exactly when it leaves a
  -- read error behind, and then stores nothing; else it returns the number of bytes stored, at most
  -- the size of the buffer. It touches no other field.
  pub hid_read_timeout-Outcome :
      (dev : Device) (buffer : Bool) (size : ℕ) (ms : ℤ) (w : W)
      → Outcome dev size (hid_read_timeout k dev buffer size ms w)
  unfolding hid_read_timeout hid_read_error
  hid_read_timeout-Outcome dev buffer size ms w = ground (
    arith,
    poll_report-Outcome (record dev { last_read_error = none }) size (to_nat ms) w refl,
    read_report-Outcome (record dev { last_read_error = none }) size w refl,
  )

-- After `hid_set_nonblocking` a read polls with a zero timeout, and when nothing has arrived it
-- returns 0 and calls `read` not at all: the world is the one that `poll` left.
hid_read-nonblocking :
    {W : Type 0} (k : Kernel W) (dev : Device) (size : ℕ) (w : W)
    → size ≢ 0
    → (k.poll w dev.device_handle 0).0 ≡ returned none
    → let g = hid_read k (hid_set_nonblocking dev true).0 true size w in
      (g.result ≡ pos 0) × (g.stored ≡ []) × (g.world ≡ (k.poll w dev.device_handle 0).1)
unfolding hid_read hid_read_timeout poll_report hid_set_nonblocking
hid_read-nonblocking k dev size w n e = ground arith

-- A blocking read does not poll: it waits in `read`.
hid_read-blocking :
    {W : Type 0} (k : Kernel W) (dev : Device) (size : ℕ) (w : W)
    → size ≢ 0
    → hid_read k (hid_set_nonblocking dev false).0 true size w
      ≡ read_report k (record (hid_set_nonblocking dev false).0 { last_read_error = none }) size w
unfolding hid_read hid_read_timeout hid_set_nonblocking
hid_read-blocking k dev size w n = ground arith

-- The four report functions, by the request that each is for.
abbrev report_function : {W : Type 0} → Request → Kernel W → Device → Option Bytes → W → Got W
report_function set_feature = hid_send_feature_report
report_function get_feature = hid_get_feature_report
report_function set_output = hid_send_output_report
report_function get_input = hid_get_input_report

-- The result is -1 with an error recorded, or a number with none.
abbrev pub Reported : ℤ → Device → Type 0
Reported r dev =
    ((r ≡ minus_one) × (hid_error dev ≢ none)) ⊎ ((is_neg r ≡ false) × (hid_error dev ≡ none))

-- Which world a report function leaves, and which buffer when it fails.
abbrev Asks : {W : Type 0} → Kernel W → Request → Device → Bytes → W → Got W → Type 0
Asks k q dev buf w g =
    (g.world ≡ (if length buf == 0 then w else (k.ioctl w dev.device_handle q buf).1))
    × (g.result ≡ minus_one → (length buf ≢ 0) → g.stored ≡ buf)

report_ioctl-Reported :
    {W : Type 0} (k : Kernel W) (q : Request) (dev : Device) (buf : Bytes) (w : W)
    → let g = report_ioctl k q dev (some buf) w in
      Reported g.result g.dev × (g.dev.last_read_error ≡ dev.last_read_error) × Asks k q dev buf w g
unfolding report_ioctl hid_error
report_ioctl-Reported k q dev buf w = ground arith

-- Each of the four report functions returns -1 exactly when it leaves an error behind, asks the
-- kernel for its own request and for nothing when the buffer is empty, and leaves the read error
-- alone. When the request fails the buffer is as it was.
report_function-Reported :
    {W : Type 0} (k : Kernel W) (q : Request) (dev : Device) (buf : Bytes) (w : W)
    → let g = report_function q k dev (some buf) w in
      Reported g.result g.dev × (g.dev.last_read_error ≡ dev.last_read_error) × Asks k q dev buf w g
unfolding hid_send_feature_report hid_get_feature_report hid_send_output_report hid_get_input_report
report_function-Reported k set_feature = report_ioctl-Reported k set_feature
report_function-Reported k get_feature = report_ioctl-Reported k get_feature
report_function-Reported k set_output = report_ioctl-Reported k set_output
report_function-Reported k get_input = report_ioctl-Reported k get_input

-- `hid_write` returns -1 exactly when it leaves an error behind; without data it writes nothing.
hid_write-Reported :
    {W : Type 0} (k : Kernel W) (dev : Device) (buf : Bytes) (w : W)
    → let (r, dev', w') = hid_write k dev (some buf) w in
      Reported r dev'
      × (dev'.last_read_error ≡ dev.last_read_error)
      × (w' ≡ (if length buf == 0 then w else (k.write w dev.device_handle buf).1))
unfolding hid_write hid_error
hid_write-Reported k dev buf w = ground arith
