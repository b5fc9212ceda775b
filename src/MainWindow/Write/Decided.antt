-- ===== src/MainWindow/Write/Decided.antt =====
-- What a write of the current serial number does, by the range and the text that the settings give.
use usb_hid_tool.Prelude.{
  ℕ, ◌≤◌, ◌≡◌, refl, ap, Bool, true, false, Option, none, some, if◌then◌else◌, Bool-cases, inl, inr,
}
use usb_hid_tool.Run.{Returns, Returns-bind, Returns-and, Returns-mono}
use usb_hid_tool.Race.Transport.{Hidapi}
use usb_hid_tool.Race.Service.{RaceService}
use usb_hid_tool.Race.Service.Kept.{HasCfg}
use usb_hid_tool.MainWindow.Settings.{SnModeSettings, build_serial_string, validate_serial_range}
use usb_hid_tool.MainWindow.Mac.{MacResult, read_mac_address}
use usb_hid_tool.MainWindow.Mac.Answer.{read_mac_address-IsMacOf}
use usb_hid_tool.MainWindow.Csv.{FileSystem}
use usb_hid_tool.MainWindow.Write.{
  WindowText, MainWindow, Now, WriteOutcome, invalid_setup, width_overflow, empty_serial, after_mac,
  write_text, write_built, write_in_range, write_current_serial_once,
}
use usb_hid_tool.MainWindow.Write.Config.{read_mac_address-HasCfg}
use usb_hid_tool.MainWindow.Write.Outcome.{
  Keeps, ReadMac, TellsAll, before_request, after_mac-TellsAll,
}

-- A fact that holds on both branches of a type.
either : {A B C : Type 0} (b : Bool) → (A → C) → (B → C) → (if b then A else B) → C
either true f g t = f t
either false f g t = g t

module _ {T H W : Type 0} (api : Hidapi H W) (text : WindowText T) (fs : FileSystem T)
    (sn_mode : SnModeSettings T) (now : Now T) where
  write_text-TellsAll :
      (serial : T) (w : MainWindow T H W)
      → 3 ≤ w.service.cfg.report_size
      → Returns
          (TellsAll api text fs sn_mode now w.service.cfg serial w)
          (write_text api text fs sn_mode now serial w)
  unfolding write_text
  write_text-TellsAll serial w h =
      Returns-bind (λ p. ReadHere p × HasCfg api w.service.cfg p)
        (TellsAll api text fs sn_mode now w.service.cfg serial w)
        (read_mac_address text.qt text.mac api now.target now.mac_events w.service) _
        (Returns-and ReadHere (HasCfg api w.service.cfg) _
          (read_mac_address-IsMacOf text.qt text.mac api now.target now.mac_events w.service h)
          (read_mac_address-HasCfg text.qt api now.target now.mac_events w.service h text.mac))
        (λ p q t.
          Returns-mono (after_mac api text fs sn_mode now serial p.0 (record w { service = p.1 }))
            (λ r. before_request api text fs sn_mode now w.service.cfg serial p.1 w r t.1)
            (after_mac-TellsAll api text fs sn_mode now w.service.cfg serial p.0
              (record w { service = p.1 }) t.1 h t.0))
    where
      ReadHere : MacResult T × RaceService H W → Type 0
      ReadHere p = ReadMac api text fs sn_mode now w.service.cfg p.0

  -- What an outcome says of a write, by the serial number that the settings give, if they give one.
  abbrev pub TellsBuilt : Option T → MainWindow T H W → WriteOutcome T × MainWindow T H W → Type 0
  TellsBuilt none w r = r ≡ (width_overflow, w)
  TellsBuilt (some serial) w r =
      if text.serial.is_empty serial
      then r ≡ (empty_serial, w)
      else TellsAll api text fs sn_mode now w.service.cfg serial w r

  abbrev pub Decided :
      Option (ℕ × ℕ) → MainWindow T H W → WriteOutcome T × MainWindow T H W → Type 0
  Decided none w r = r ≡ (invalid_setup, w)
  Decided (some (width, next)) w r =
      TellsBuilt (build_serial_string text.serial sn_mode next width)
        (record w { next_serial = next }) r

  write_built-TellsBuilt :
      (serial : Option T) (w : MainWindow T H W)
      → 3 ≤ w.service.cfg.report_size
      → Returns (TellsBuilt serial w) (write_built api text fs sn_mode now serial w)
  unfolding write_built
  write_built-TellsBuilt none w h = refl
  write_built-TellsBuilt (some serial) w h = elim (Bool-cases (text.serial.is_empty serial)) [
    | inl e ↦ rw (e, TellsBuilt) refl
    | inr e ↦ rw (e, TellsBuilt) (write_text-TellsAll serial w h)
  ]

  write_in_range-Decided :
      (range : Option (ℕ × ℕ)) (w : MainWindow T H W)
      → 3 ≤ w.service.cfg.report_size
      → Returns (Decided range w) (write_in_range api text fs sn_mode now range w)
  unfolding write_in_range
  write_in_range-Decided none w h = refl
  write_in_range-Decided (some (width, next)) w h =
      write_built-TellsBuilt (build_serial_string text.serial sn_mode next width)
        (record w { next_serial = next }) h

  pub write_current_serial_once-Decided :
      (w : MainWindow T H W)
      → 3 ≤ w.service.cfg.report_size
      → Returns
          (Decided (validate_serial_range text.serial sn_mode w.next_serial) w)
          (write_current_serial_once api text fs sn_mode now w)
  unfolding write_current_serial_once
  write_current_serial_once-Decided w h =
      write_in_range-Decided (validate_serial_range text.serial sn_mode w.next_serial) w h

  unchanged-Keeps :
      (w : MainWindow T H W) (o : WriteOutcome T) (r : WriteOutcome T × MainWindow T H W)
      → r ≡ (o, w)
      → Keeps w r.1
  unchanged-Keeps w o r e = record {
    service_cfg = ap (λ p. p.1.service.cfg) e;
    window_cfg = ap (λ p. p.1.cfg) e;
    armed = ap (λ p. p.1.auto_sn_armed) e;
    timer = ap (λ p. p.1.auto_sn_timer) e;
  }

  TellsBuilt-Keeps :
      (serial : Option T) (w : MainWindow T H W) (r : WriteOutcome T × MainWindow T H W)
      → TellsBuilt serial w r
      → Keeps w r.1
  TellsBuilt-Keeps none w r t = unchanged-Keeps w width_overflow r t
  TellsBuilt-Keeps (some serial) w r t =
      either (text.serial.is_empty serial) (λ e. unchanged-Keeps w empty_serial r e) (λ x. x.1) t

  Decided-Keeps :
      (range : Option (ℕ × ℕ)) (w : MainWindow T H W) (r : WriteOutcome T × MainWindow T H W)
      → Decided range w r
      → Keeps w r.1
  Decided-Keeps none w r t = unchanged-Keeps w invalid_setup r t
  Decided-Keeps (some (width, next)) w r t =
      let k : Keeps (record w { next_serial = next }) r.1 =
        TellsBuilt-Keeps (build_serial_string text.serial sn_mode next width)
          (record w { next_serial = next }) r t in
      record {
        service_cfg = k.service_cfg;
        window_cfg = k.window_cfg;
        armed = k.armed;
        timer = k.timer;
      }

  pub write_current_serial_once-Keeps :
      (w : MainWindow T H W)
      → 3 ≤ w.service.cfg.report_size
      → Returns (λ r. Keeps w r.1) (write_current_serial_once api text fs sn_mode now w)
  write_current_serial_once-Keeps w h =
      Returns-mono (write_current_serial_once api text fs sn_mode now w)
        (λ r t. Decided-Keeps (validate_serial_range text.serial sn_mode w.next_serial) w r t)
        (write_current_serial_once-Decided w h)
