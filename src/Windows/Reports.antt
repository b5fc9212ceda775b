-- ===== src/Windows/Reports.antt =====
-- `hid_send_feature_report`, `hid_get_report`, `hid_get_feature_report`, `hid_send_output_report` and
-- `hid_get_input_report` of hidapi/windows/hid.c.
pub mod Contract
use usb_hid_tool.Prelude.{
  ℕ, suc, ◌+◌, Bool, true, false, List, [], ◌∷◌, Option, none, some, ◌==◌, if◌then◌else◌, length,
}
use usb_hid_tool.Prelude.Int.{ℤ, pos, minus_one}
use usb_hid_tool.Run.{Run, done, ◌>>=◌, read}
use usb_hid_tool.Windows.Transfers.{
  Bytes, Operation, set_feature, set_output_report, device_control, control_result, Error,
  zero_buffer, winapi, named, Control, get_feature, get_input_report, Windows, Device, Outcome,
  outcome, with_error, Buffer, output_buffer, feature_buffer,
}

module _ {W : Type 0} (os : Windows W) where
  -- The result is the caller's length, also where more bytes are sent.
  unfoldable pub hid_send_feature_report : Device → Option Bytes → W → Outcome W
  hid_send_feature_report dev none w = outcome minus_one [] (with_error dev (some zero_buffer)) w
  hid_send_feature_report dev (some []) w =
      outcome minus_one [] (with_error dev (some zero_buffer)) w
  hid_send_feature_report dev (some (b ∷ bs)) w =
      let buf = feature_buffer os (with_error dev none) (b ∷ bs) w in
      elim buf.bytes [
        | none ↦ outcome minus_one (b ∷ bs) buf.dev buf.world
        | some full ↦
            let (sent, w') = os.set_feature buf.world full in
            if sent
            then outcome (pos (suc (length bs))) (b ∷ bs) buf.dev w'
            else outcome minus_one (b ∷ bs) (with_error buf.dev (some (winapi set_feature))) w'
      ]

  unfoldable pub hid_send_output_report : Device → Option Bytes → W → Outcome W
  hid_send_output_report dev none w = outcome minus_one [] (with_error dev (some zero_buffer)) w
  hid_send_output_report dev (some []) w =
      outcome minus_one [] (with_error dev (some zero_buffer)) w
  hid_send_output_report dev (some (b ∷ bs)) w =
      let buf = output_buffer os (with_error dev none) (b ∷ bs) w in
      elim buf.bytes [
        | none ↦ outcome minus_one (b ∷ bs) buf.dev buf.world
        | some full ↦
            let (sent, w') = os.set_output_report buf.world full in
            if sent
            then outcome (pos (suc (length bs))) (b ∷ bs) buf.dev w'
            else outcome minus_one (b ∷ bs) (with_error buf.dev (some (named set_output_report))) w'
      ]

  -- A report number 0 in the buffer is counted besides the bytes received.
  unfoldable pub counted : Device → ℕ → Bytes → W → Run (Outcome W)
  counted dev n bytes w = do
    first ← read bytes 0
    done (outcome (pos (if first == 0 then n + 1 else n)) bytes dev w)

  unfoldable pub hid_get_report : Control → Device → Option Bytes → W → Run (Outcome W)
  hid_get_report c dev none w = done (outcome minus_one [] (with_error dev (some zero_buffer)) w)
  hid_get_report c dev (some []) w =
      done (outcome minus_one [] (with_error dev (some zero_buffer)) w)
  hid_get_report c dev (some (b ∷ bs)) w =
      let clear : Device = with_error dev none in
      let (started, w') = os.device_control w c (b ∷ bs) in
      if started
      then (let (r, w'') = os.control_overlapped w' (b ∷ bs) in
          elim r [
            | none ↦
                done
                  (outcome minus_one (b ∷ bs) (with_error clear (some (winapi control_result))) w'')
            | some (n, bytes) ↦ counted clear n bytes w''
          ])
      else done (outcome minus_one (b ∷ bs) (with_error clear (some (winapi device_control))) w')

  unfoldable pub hid_get_feature_report : Device → Option Bytes → W → Run (Outcome W)
  hid_get_feature_report = hid_get_report get_feature

  unfoldable pub hid_get_input_report : Device → Option Bytes → W → Run (Outcome W)
  hid_get_input_report = hid_get_report get_input_report
