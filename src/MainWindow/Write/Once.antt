-- ===== src/MainWindow/Write/Once.antt =====
-- A write of the current serial number, from the settings to the record.
use usb_hid_tool.Prelude.{
  ◌≢◌, sym, subst, arith, ℕ, ◌≤◌, ◌≡◌, refl, Bool, true, false, Option, none, some, if◌then◌else◌,
  Bool-cases, inl, inr,
}
use usb_hid_tool.Run.{Returns, Returns-mono}
use usb_hid_tool.Race.Transport.{Hidapi}
use usb_hid_tool.MainWindow.Settings.{SnModeSettings, build_serial_string, validate_serial_range}
use usb_hid_tool.MainWindow.Settings.Serial.{
  IsRange, Ranges, validate_serial_range-Ranges, IsSerial, Builds, build_serial_string-Builds,
}
use usb_hid_tool.MainWindow.Csv.{FileSystem}
use usb_hid_tool.MainWindow.Write.{
  WindowText, MainWindow, Now, WriteOutcome, invalid_setup, width_overflow, empty_serial,
  write_current_serial_once, mac_not_read, duplicate_skipped, sn_not_written, sn_written,
}
use usb_hid_tool.MainWindow.Write.Decided.{TellsBuilt, Decided, write_current_serial_once-Decided}
use usb_hid_tool.MainWindow.Write.Outcome.{TellsAll}

-- The branch of a type that a test picks.
pick_then : (A B : Type 0) (b : Bool) → b ≡ true → (if b then A else B) → A
pick_then A B true e h = h
pick_then A B false e h = absurd (ground (arith, e))

pick_else : (A B : Type 0) (b : Bool) → b ≡ false → (if b then A else B) → B
pick_else A B true e h = absurd (ground (arith, e))
pick_else A B false e h = h

module _ {T H W : Type 0} (api : Hidapi H W) (text : WindowText T) (fs : FileSystem T)
    (sn_mode : SnModeSettings T) (now : Now T) where
  -- A write that was tried: of the serial number that the settings give for the next number.
  pub record Attempt (w : MainWindow T H W) (r : WriteOutcome T × MainWindow T H W) : Type 0 where
    pub width : ℕ
    pub next : ℕ
    pub serial : T
    pub range : IsRange text.serial sn_mode w.next_serial width next
    pub built : IsSerial text.serial sn_mode next width serial
    pub not_empty : text.serial.is_empty serial ≡ false
    pub tells :
        TellsAll api text fs sn_mode now w.service.cfg serial (record w { next_serial = next }) r

  -- What an outcome says, by the settings.
  abbrev pub TellsOnce : MainWindow T H W → WriteOutcome T × MainWindow T H W → Type 0
  TellsOnce w (invalid_setup, w') =
      ((width next : ℕ) → IsRange text.serial sn_mode w.next_serial width next → ⊥) × (w' ≡ w)
  TellsOnce w (width_overflow, w') =
      (width : ℕ) × (next : ℕ) × IsRange text.serial sn_mode w.next_serial width next
      × (text.serial.size (text.serial.padded next width) ≢ width)
      × (w' ≡ record w { next_serial = next })
  TellsOnce w (empty_serial, w') =
      (width : ℕ) × (next : ℕ) × (serial : T) × IsRange text.serial sn_mode w.next_serial width next
      × IsSerial text.serial sn_mode next width serial
      × (text.serial.is_empty serial ≡ true)
      × (w' ≡ record w { next_serial = next })
  TellsOnce w (mac_not_read e, w') = Attempt w (mac_not_read e, w')
  TellsOnce w (duplicate_skipped, w') = Attempt w (duplicate_skipped, w')
  TellsOnce w (sn_not_written e, w') = Attempt w (sn_not_written e, w')
  TellsOnce w (sn_written serial mac, w') = Attempt w (sn_written serial mac, w')

  Attempt-TellsOnce :
      (w : MainWindow T H W) (r : WriteOutcome T × MainWindow T H W) → Attempt w r → TellsOnce w r
  Attempt-TellsOnce w (invalid_setup, w') a = absurd a.tells.0
  Attempt-TellsOnce w (width_overflow, w') a = absurd a.tells.0
  Attempt-TellsOnce w (empty_serial, w') a = absurd a.tells.0
  Attempt-TellsOnce w (mac_not_read e, w') a = a
  Attempt-TellsOnce w (duplicate_skipped, w') a = a
  Attempt-TellsOnce w (sn_not_written e, w') a = a
  Attempt-TellsOnce w (sn_written serial mac, w') a = a

  built-TellsOnce :
      (w : MainWindow T H W) (width next : ℕ) (o : Option T) (r : WriteOutcome T × MainWindow T H W)
      → IsRange text.serial sn_mode w.next_serial width next
      → Builds text.serial sn_mode next width o
      → TellsBuilt api text fs sn_mode now o (record w { next_serial = next }) r
      → TellsOnce w r
  built-TellsOnce w width next none r i b t = subst (TellsOnce w) (sym t) (width, next, i, b, refl)
  built-TellsOnce w width next (some serial) r i b t =
      elim (Bool-cases (text.serial.is_empty serial)) [
        | inl e ↦ subst (TellsOnce w) (sym (same e t)) (width, next, serial, i, b, e, refl)
        | inr e ↦ Attempt-TellsOnce w r (record {
          width = width;
          next = next;
          serial = serial;
          range = i;
          built = b;
          not_empty = e;
          tells = all e t;
        })
      ]
    where
      next_w : MainWindow T H W
      next_w = record w { next_serial = next }

      same :
          text.serial.is_empty serial ≡ true
          → TellsBuilt api text fs sn_mode now (some serial) next_w r
          → r ≡ (empty_serial, next_w)
      same e t = pick_then _ _ (text.serial.is_empty serial) e t

      all :
          text.serial.is_empty serial ≡ false
          → TellsBuilt api text fs sn_mode now (some serial) next_w r
          → TellsAll api text fs sn_mode now w.service.cfg serial next_w r
      all e t = pick_else _ _ (text.serial.is_empty serial) e t

  Decided-TellsOnce :
      (w : MainWindow T H W) (range : Option (ℕ × ℕ)) (r : WriteOutcome T × MainWindow T H W)
      → Ranges text.serial sn_mode w.next_serial range
      → Decided api text fs sn_mode now range w r
      → TellsOnce w r
  Decided-TellsOnce w none r i d = subst (TellsOnce w) (sym d) (i, refl)
  Decided-TellsOnce w (some (width, next)) r i d =
      built-TellsOnce w width next (build_serial_string text.serial sn_mode next width) r i
        (build_serial_string-Builds text.serial sn_mode next width) d

  -- With reports of at least three bytes `writeCurrentSerialOnce` returns, whatever the device
  -- answers. It finds the setup invalid exactly when the settings hold no start number or no positive
  -- width, and then changes nothing. Else the next number, raised to the start number, must fill the
  -- width, and the text made of the prefix, the chosen codes and the number must not be empty, or
  -- nothing more happens. Then it tells that text written only if the MAC address was read, the pair
  -- was no duplicate where duplicates are prevented, and the device confirmed the command; the next
  -- number grows by one, modulo 2^64, and one record tells OK. In each other case the number stays and
  -- one record tells why. A record goes behind the lines of a file of the day, and all other files stay
  -- as they are; nothing is recorded where that file cannot be opened.
  pub write_current_serial_once-TellsOnce :
      (w : MainWindow T H W)
      → 3 ≤ w.service.cfg.report_size
      → Returns (TellsOnce w) (write_current_serial_once api text fs sn_mode now w)
  write_current_serial_once-TellsOnce w h =
      Returns-mono (write_current_serial_once api text fs sn_mode now w)
        (λ r d.
          Decided-TellsOnce w (validate_serial_range text.serial sn_mode w.next_serial) r
            (validate_serial_range-Ranges text.serial sn_mode w.next_serial) d)
        (write_current_serial_once-Decided api text fs sn_mode now w h)
