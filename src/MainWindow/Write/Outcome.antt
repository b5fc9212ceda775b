-- ===== src/MainWindow/Write/Outcome.antt =====
-- What each outcome of a write says of the device, the records and the next serial number.
use usb_hid_tool.Prelude.{
  ℕ, ◌+◌, ◌%◌, ◌^◌, ◌≤◌, ◌≡◌, refl, ap, subst, ◌∙◌, Bool, true, false, ◌&&◌, List, Option, none,
  some, arith, Bool-cases, inl, inr,
}
use usb_hid_tool.Run.{done, ◌>>=◌, Returns, Returns-bind, Returns-and}
use usb_hid_tool.Race.Packet.{HidReportConfig}
use usb_hid_tool.Race.Transport.{Hidapi}
use usb_hid_tool.Race.Command.{parse_hex_string}
use usb_hid_tool.Race.Service.{RaceService}
use usb_hid_tool.Race.Service.Request.{first_payload}
use usb_hid_tool.Race.Service.Kept.{HasCfg}
use usb_hid_tool.Race.Serial.{
  WriteError, write_serial_by_template, build_cmd_from_template, Wrote,
  write_serial_by_template-Wrote,
}
use usb_hid_tool.MainWindow.Settings.{SnModeSettings}
use usb_hid_tool.MainWindow.Mac.{MacResult, mac_read, mac_failed}
use usb_hid_tool.MainWindow.Mac.Answer.{IsMacOf}
use usb_hid_tool.MainWindow.Csv.Current.{IsAppended, append_csv_record-IsAppended}
use usb_hid_tool.MainWindow.Csv.{csv_row, CsvFile, FileSystem, is_duplicate_record}
use usb_hid_tool.MainWindow.Write.{
  WindowText, MainWindow, Now, WriteOutcome, invalid_setup, width_overflow, empty_serial,
  mac_not_read, duplicate_skipped, sn_not_written, sn_written, recorded, print_result, after_write,
  after_mac,
}
use usb_hid_tool.MainWindow.Write.Config.{write_serial_by_template-HasCfg}

-- The members that a write leaves as they are.
pub record Keeps {T H W : Type 0} (w w' : MainWindow T H W) : Type 0 where
  pub service_cfg : w'.service.cfg ≡ w.service.cfg
  pub window_cfg : w'.cfg ≡ w.cfg
  pub armed : w'.auto_sn_armed ≡ w.auto_sn_armed
  pub timer : w'.auto_sn_timer ≡ w.auto_sn_timer

module _ {T H W : Type 0} (api : Hidapi H W) (text : WindowText T) (fs : FileSystem T)
    (sn_mode : SnModeSettings T) (now : Now T) (cfg : HidReportConfig) where
  -- One record more, of this row.
  abbrev OneRecord : T → T → T → T → List (CsvFile T) → List (CsvFile T) → Type 0
  OneRecord mac serial burn print csv csv' =
      IsAppended fs text.csv now.day (csv_row text.csv now.time mac serial burn print) csv csv'

  abbrev is_refused : T → T → List (CsvFile T) → Bool
  is_refused mac serial csv =
      sn_mode.prevent_duplicate && is_duplicate_record fs text.csv mac serial csv

  -- The result of the request for the MAC address.
  abbrev pub ReadMac : MacResult T → Type 0
  ReadMac r =
      IsMacOf text.qt text.mac (parse_hex_string text.qt text.mac.command)
        (first_payload cfg now.mac_events) r

  -- The result of the request that writes.
  abbrev WroteSerial : T → Option (WriteError T) → Type 0
  WroteSerial serial e =
      Wrote text.qt text.template api
        (build_cmd_from_template text.qt text.template sn_mode.sn_template serial)
        (first_payload cfg now.write_events) e

  module _ (next : ℕ) (csv : List (CsvFile T)) (serial : T) where
    -- A serial number that was not written: one record, and the same number next.
    pub record NotWritten (mac burn : T) (w' : MainWindow T H W) : Type 0 where
      pub same_next : w'.next_serial ≡ next
      pub one_record : OneRecord mac serial burn text.not_run csv w'.csv

    pub record Written (mac : T) (w' : MainWindow T H W) : Type 0 where
      pub read : ReadMac (mac_read mac)
      pub allowed : is_refused mac serial csv ≡ false
      pub confirmed : WroteSerial serial none
      pub next_number : w'.next_serial ≡ (next + 1) % 2 ^ 64
      pub one_record :
          OneRecord mac serial text.csv.ok (print_result text fs sn_mode now serial mac) csv w'.csv

    pub record Skipped (w' : MainWindow T H W) : Type 0 where
      pub mac : T
      pub read : ReadMac (mac_read mac)
      pub refused : is_refused mac serial csv ≡ true
      pub kept : NotWritten mac text.duplicate_skip w'

    pub record Failed (e : WriteError T) (w' : MainWindow T H W) : Type 0 where
      pub mac : T
      pub read : ReadMac (mac_read mac)
      pub allowed : is_refused mac serial csv ≡ false
      pub failed : WroteSerial serial (some e)
      pub kept : NotWritten mac text.write_fail w'

    -- What an outcome says of a write of `serial`.
    abbrev pub Tells : WriteOutcome T → MainWindow T H W → Type 0
    Tells invalid_setup w' = ⊥
    Tells width_overflow w' = ⊥
    Tells empty_serial w' = ⊥
    Tells (mac_not_read e) w' =
        ReadMac (mac_failed e) × NotWritten text.no_mac text.mac_read_fail w'
    Tells duplicate_skipped w' = Skipped w'
    Tells (sn_not_written e) w' = Failed e w'
    Tells (sn_written written mac) w' = (written ≡ serial) × Written mac w'

  abbrev pub TellsAll : T → MainWindow T H W → WriteOutcome T × MainWindow T H W → Type 0
  TellsAll serial w (o, w') = Tells w.next_serial w.csv serial o w' × Keeps w w'

  after_write-TellsAll :
      (serial mac : T) (e : Option (WriteError T)) (w : MainWindow T H W)
      → ReadMac (mac_read mac)
      → is_refused mac serial w.csv ≡ false
      → WroteSerial serial e
      → TellsAll serial w (after_write text fs sn_mode now serial mac e w)
  unfolding after_write recorded
  after_write-TellsAll serial mac none w r a h = (
    (
      refl,
      record {
        read = r;
        allowed = a;
        confirmed = h;
        next_number = refl;
        one_record =
            append_csv_record-IsAppended fs text.csv now.day now.time mac serial text.csv.ok
              (print_result text fs sn_mode now serial mac) w.csv;
      },
    ),
    record { service_cfg = refl; window_cfg = refl; armed = refl; timer = refl },
  )
  after_write-TellsAll serial mac (some e) w r a h = (
    record {
      mac = mac;
      read = r;
      allowed = a;
      failed = h;
      kept = record {
        same_next = refl;
        one_record =
            append_csv_record-IsAppended fs text.csv now.day now.time mac serial text.write_fail
              text.not_run w.csv;
      };
    },
    record { service_cfg = refl; window_cfg = refl; armed = refl; timer = refl },
  )

  -- What holds behind a request holds before it.
  pub before_request :
      (serial : T) (s : RaceService H W) (w : MainWindow T H W)
      (r : WriteOutcome T × MainWindow T H W)
      → s.cfg ≡ w.service.cfg
      → TellsAll serial (record w { service = s }) r
      → TellsAll serial w r
  before_request serial s w (o, w') e t = (
    t.0,
    record {
      service_cfg = t.1.service_cfg ∙ e;
      window_cfg = t.1.window_cfg;
      armed = t.1.armed;
      timer = t.1.timer;
    },
  )

  written-TellsAll :
      (serial mac : T) (w : MainWindow T H W)
      → w.service.cfg ≡ cfg
      → 3 ≤ cfg.report_size
      → ReadMac (mac_read mac)
      → is_refused mac serial w.csv ≡ false
      → Returns (TellsAll serial w) (
          write_serial_by_template text.qt text.template api sn_mode.sn_template serial now.target
            now.write_events w.service
          >>= λ p.
              done (after_write text fs sn_mode now serial mac p.0 (record w { service = p.1 })))
  written-TellsAll serial mac w k h r a =
      Returns-bind (λ p. WroteHere p × HasCfg api w.service.cfg p) (TellsAll serial w)
        (write_serial_by_template text.qt text.template api sn_mode.sn_template serial now.target
          now.write_events w.service)
        _
        (Returns-and WroteHere (HasCfg api w.service.cfg) _
          (write_serial_by_template-Wrote text.qt text.template api sn_mode.sn_template serial
            now.target now.write_events w.service long)
          (write_serial_by_template-HasCfg text.qt api now.target now.write_events w.service long
            text.template sn_mode.sn_template serial))
        (λ p q t. before_request serial p.1 w _ t.1 (
          after_write-TellsAll serial mac p.0 (record w { service = p.1 }) r a
            (subst (λ c. WroteAt c p.0) k t.0)))
    where
      long : 3 ≤ w.service.cfg.report_size
      long = omega (arith, h, ap (λ c. c.report_size) k)

      WroteAt : HidReportConfig → Option (WriteError T) → Type 0
      WroteAt c e =
          Wrote text.qt text.template api
            (build_cmd_from_template text.qt text.template sn_mode.sn_template serial)
            (first_payload c now.write_events) e

      WroteHere : Option (WriteError T) × RaceService H W → Type 0
      WroteHere p = WroteAt w.service.cfg p.0

  pub after_mac-TellsAll :
      (serial : T) (r : MacResult T) (w : MainWindow T H W)
      → w.service.cfg ≡ cfg
      → 3 ≤ cfg.report_size
      → ReadMac r
      → Returns (TellsAll serial w) (after_mac api text fs sn_mode now serial r w)
  unfolding after_mac recorded
  after_mac-TellsAll serial (mac_failed e) w k h r = (
    (
      r,
      record {
        same_next = refl;
        one_record =
            append_csv_record-IsAppended fs text.csv now.day now.time text.no_mac serial
              text.mac_read_fail text.not_run w.csv;
      },
    ),
    record { service_cfg = refl; window_cfg = refl; armed = refl; timer = refl },
  )
  after_mac-TellsAll serial (mac_read mac) w k h r =
      elim (Bool-cases (is_refused mac serial w.csv)) [
        | inl a ↦ rw a (
          record {
            mac = mac;
            read = r;
            refused = a;
            kept = record {
              same_next = refl;
              one_record =
                  append_csv_record-IsAppended fs text.csv now.day now.time mac serial
                    text.duplicate_skip text.not_run w.csv;
            };
          },
          record { service_cfg = refl; window_cfg = refl; armed = refl; timer = refl },
        )
        | inr a ↦ rw a (written-TellsAll serial mac w k h r a)
      ]
