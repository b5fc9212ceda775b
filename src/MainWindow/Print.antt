-- ===== src/MainWindow/Print.antt =====
-- src/ui/main_window.cpp: `MainWindow::printSerialLabel`. The network is a parameter.
use usb_hid_tool.Prelude.{
  ℕ, Bool, false, not, ◌||◌, List, [], ◌∷◌, ◌++◌, Option, none, some, ltb, ◌==◌, if◌then◌else◌,
}
use usb_hid_tool.Prelude.Int.{pos, negsuc}
use usb_hid_tool.Race.Command.{Bytes}
use usb_hid_tool.MainWindow.Settings.{SerialText, SnModeSettings}

pub record PrintText (T : Type 0) : Type 0 where
  pub replace : T → T → T → T
  -- "{SERIAL}" and "{MAC}"
  pub serial_mark : T
  pub mac_mark : T
  pub to_utf8 : T → Bytes

-- Whether `waitForConnected`, and `write` with `waitForBytesWritten`, succeed.
pub record Network (T : Type 0) : Type 0 where
  pub connects : T → ℕ → Bool
  pub sends : Bytes → Bool

pub data PrintError : Type 0 where
  invalid_port empty_ip no_connection print_write_failed : PrintError

unfoldable pub ends_with_newline : Bytes → Bool
ends_with_newline [] = false
ends_with_newline (b ∷ []) = b == 10
ends_with_newline (b ∷ c ∷ bs) = ends_with_newline (c ∷ bs)

module _ {T : Type 0} (serial_text : SerialText T) (text : PrintText T)
    (sn_mode : SnModeSettings T) where
  unfoldable pub build_print_template : T → T → T
  build_print_template serial mac =
      text.replace (text.replace sn_mode.print_template text.serial_mark serial) text.mac_mark mac

  unfoldable pub print_payload : T → T → Bytes
  print_payload serial mac =
      let payload = text.to_utf8 (build_print_template serial mac) in
      if ends_with_newline payload then payload else payload ++ (10 ∷ [])

  -- `errMsg`, and the payloads that are handed to the socket.
  unfoldable pub print_serial_label : Network T → T → T → Option PrintError × List Bytes
  print_serial_label network serial mac = elim (serial_text.to_int sn_mode.printer_port) [
    | none ↦ (some invalid_port, [])
    | some (negsuc _) ↦ (some invalid_port, [])
    | some (pos port) ↦
        let ip = serial_text.trimmed sn_mode.printer_ip in
        if port == 0 || ltb 65535 port
        then (some invalid_port, [])
        else if serial_text.is_empty ip
        then (some empty_ip, [])
        else if not (network.connects ip port)
        then (some no_connection, [])
        else if network.sends (print_payload serial mac)
        then (none, print_payload serial mac ∷ [])
        else (some print_write_failed, print_payload serial mac ∷ [])
  ]
