-- ===== src/MainWindow/Write.antt =====
-- src/ui/main_window.cpp: `MainWindow::writeCurrentSerialOnce`. The log of the window is left out; the
-- outcome is what `setSnLastResult` shows. No other slot runs during a request.
pub mod Config
pub mod Outcome
pub mod Decided
pub mod Once
use usb_hid_tool.Prelude.{ℕ, ◌+◌, ◌%◌, ◌^◌, Bool, ◌&&◌, List, Option, none, some, if◌then◌else◌}
use usb_hid_tool.Run.{Run, done, ◌>>=◌}
use usb_hid_tool.Race.Packet.{HidReportConfig}
use usb_hid_tool.Race.Transport.{Hidapi}
use usb_hid_tool.Race.Command.{Qt}
use usb_hid_tool.Race.Service.{RaceService, Event}
use usb_hid_tool.Race.Serial.{Template, WriteError, write_serial_by_template}
use usb_hid_tool.MainWindow.Settings.{
  SerialText, SnModeSettings, build_serial_string, validate_serial_range,
}
use usb_hid_tool.MainWindow.Mac.{
  MacError, MacResult, mac_read, mac_failed, MacText, read_mac_address,
}
use usb_hid_tool.MainWindow.Csv.{
  CsvText, CsvFile, FileSystem, append_csv_record, is_duplicate_record,
}
use usb_hid_tool.MainWindow.Print.{PrintText, Network, print_serial_label}

-- QString for the whole window, with the literals of a record.
pub record WindowText (T : Type 0) : Type 0 where
  pub qt : Qt T
  pub serial : SerialText T
  pub template : Template T
  pub mac : MacText T
  pub csv : CsvText T
  pub print : PrintText T
  pub no_mac : T
  pub mac_read_fail : T
  pub duplicate_skip : T
  pub write_fail : T
  pub not_run : T
  pub fail : T

-- The members of the window that a write uses; `auto_sn_timer` is the interval while it runs.
pub record MainWindow (T H W : Type 0) : Type 0 where
  pub service : RaceService H W
  pub cfg : HidReportConfig
  pub next_serial : ℕ
  pub auto_sn_armed : Bool
  pub auto_sn_timer : Option ℕ
  pub csv : List (CsvFile T)

-- What a write meets: the chosen target, what comes in during its two requests, the time, and the
-- network.
pub record Now (T : Type 0) : Type 0 where
  pub target : ℕ
  pub mac_events : List Event
  pub write_events : List Event
  pub day : ℕ
  pub time : T
  pub network : Network T

pub data WriteOutcome (T : Type 0) : Type 0 where
  invalid_setup width_overflow empty_serial : WriteOutcome T
  mac_not_read : MacError T → WriteOutcome T
  duplicate_skipped : WriteOutcome T
  sn_not_written : WriteError T → WriteOutcome T
  sn_written : T → T → WriteOutcome T

module _ {T : Type 0} (text : WindowText T) (fs : FileSystem T) (sn_mode : SnModeSettings T) where
  -- A record of mac, serial number, burn result and print result; an error is only logged.
  unfoldable pub recorded :
      {H W : Type 0} → Now T → T → T → T → T → MainWindow T H W → MainWindow T H W
  recorded now mac serial burn print w = record w {
    csv = (append_csv_record fs text.csv now.day now.time mac serial burn print w.csv).1;
  }

  unfoldable pub print_result : Now T → T → T → T
  print_result now serial mac =
      if sn_mode.enable_print
      then (elim (print_serial_label text.serial text.print sn_mode now.network serial mac).0 [
        | none ↦ text.csv.ok
        | some _ ↦ text.fail
      ])
      else text.not_run

  -- The part behind the request that writes.
  unfoldable pub after_write :
      {H W : Type 0}
      → Now T
      → T
      → T
      → Option (WriteError T)
      → MainWindow T H W
      → WriteOutcome T × MainWindow T H W
  after_write now serial mac (some e) w =
      (sn_not_written e, recorded now mac serial text.write_fail text.not_run w)
  after_write now serial mac none w = (
    sn_written serial mac,
    record (recorded now mac serial text.csv.ok (print_result now serial mac) w) {
      next_serial = (w.next_serial + 1) % 2 ^ 64;
    },
  )

module _ {T H W : Type 0} (api : Hidapi H W) (text : WindowText T) (fs : FileSystem T)
    (sn_mode : SnModeSettings T) where
  -- The part behind the request for the MAC address.
  unfoldable pub after_mac :
      Now T → T → MacResult T → MainWindow T H W → Run (WriteOutcome T × MainWindow T H W)
  after_mac now serial (mac_failed e) w = done (
    mac_not_read e,
    recorded text fs sn_mode now text.no_mac serial text.mac_read_fail text.not_run w,
  )
  after_mac now serial (mac_read mac) w =
      if sn_mode.prevent_duplicate && is_duplicate_record fs text.csv mac serial w.csv
      then done (
        duplicate_skipped,
        recorded text fs sn_mode now mac serial text.duplicate_skip text.not_run w,
      )
      else (do
        (e, s) ←
            write_serial_by_template text.qt text.template api sn_mode.sn_template serial now.target
              now.write_events w.service
        done (after_write text fs sn_mode now serial mac e (record w { service = s })))

  unfoldable pub write_text : Now T → T → MainWindow T H W → Run (WriteOutcome T × MainWindow T H W)
  write_text now serial w = do
    (r, s) ← read_mac_address text.qt text.mac api now.target now.mac_events w.service
    after_mac now serial r (record w { service = s })

  unfoldable pub write_built :
      Now T → Option T → MainWindow T H W → Run (WriteOutcome T × MainWindow T H W)
  write_built now none w = done (width_overflow, w)
  write_built now (some serial) w =
      if text.serial.is_empty serial then done (empty_serial, w) else write_text now serial w

  unfoldable pub write_in_range :
      Now T → Option (ℕ × ℕ) → MainWindow T H W → Run (WriteOutcome T × MainWindow T H W)
  write_in_range now none w = done (invalid_setup, w)
  write_in_range now (some (width, next)) w =
      write_built now (build_serial_string text.serial sn_mode next width)
        (record w { next_serial = next })

  unfoldable pub write_current_serial_once :
      Now T → MainWindow T H W → Run (WriteOutcome T × MainWindow T H W)
  write_current_serial_once now w =
      write_in_range now (validate_serial_range text.serial sn_mode w.next_serial) w
