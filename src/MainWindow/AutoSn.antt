-- ===== src/MainWindow/AutoSn.antt =====
-- src/ui/main_window.cpp: the buttons that connect, write and start, and the timer that writes a serial
-- number to each device that is plugged in. The log of the window is left out.
pub mod Tick
pub mod Ticks
use usb_hid_tool.Prelude.{
  ℕ, Bool, true, false, List, [], ◌∷◌, Option, none, some, ltb, if◌then◌else◌,
}
use usb_hid_tool.Prelude.Int.{pos, negsuc}
use usb_hid_tool.Run.{Run, done, ◌>>=◌}
use usb_hid_tool.Race.Packet.{HidReportConfig}
use usb_hid_tool.Race.Transport.{
  Hidapi, TransportError, HidTransport, is_open, configure_input_polling, pick_device_path, close,
  open_device,
}
use usb_hid_tool.MainWindow.Settings.{
  SnModeSettings, validate_serial_range, Form, parsed_config, parse_usb_config,
}
use usb_hid_tool.MainWindow.Csv.{FileSystem}
use usb_hid_tool.MainWindow.Write.{
  WindowText, MainWindow, Now, WriteOutcome, sn_written, write_current_serial_once,
}

-- What a tick of the timer comes to.
pub data Ticked (T : Type 0) : Type 0 where
  stopped absent waiting : Ticked T
  not_opened : TransportError → Ticked T
  tried : WriteOutcome T → Ticked T

abbrev pub is_written : {T : Type 0} → WriteOutcome T → Bool
is_written (sn_written serial mac) = true
is_written _ = false

unfoldable pub is_present : List ℕ → Bool
is_present [] = false
is_present (c ∷ cs) = true

module _ {T H W : Type 0} where
  abbrev pub with_transport : HidTransport H → W → MainWindow T H W → MainWindow T H W
  with_transport t world w = record w {
    service = record w.service { transport = t; world = world };
  }

  abbrev pub with_armed : Bool → MainWindow T H W → MainWindow T H W
  with_armed b w = record w { auto_sn_armed = b }

  abbrev pub armed_if : Bool → MainWindow T H W → MainWindow T H W
  armed_if true w = with_armed true w
  armed_if false w = w

  -- `parseUsbConfig`, which gives the service the configuration when all fields are numbers.
  abbrev pub with_config : HidReportConfig → MainWindow T H W → MainWindow T H W
  with_config cfg w = record w { service = record w.service { cfg = cfg }; cfg = cfg }

module _ {H W : Type 0} (api : Hidapi H W) where
  unfoldable pub device_exists : ℕ → ℕ → W → Bool × W
  device_exists vid pid world =
      let (path, world') = pick_device_path api vid pid world in (is_present path, world')

module _ {T H W : Type 0} (api : Hidapi H W) where
  unfoldable pub close_transport : MainWindow T H W → MainWindow T H W
  close_transport w =
      let (t, world) = close api w.service.transport w.service.world in with_transport t world w

  unfoldable pub close_if_open : MainWindow T H W → MainWindow T H W
  close_if_open w = if is_open w.service.transport then close_transport w else w

  -- `configureInputPolling` and `open`.
  unfoldable pub configure_and_open :
      ℕ → ℕ → MainWindow T H W → Option TransportError × MainWindow T H W
  configure_and_open vid pid w =
      let t = configure_input_polling w.service.transport w.cfg.in_report_id w.cfg.report_size in
      let d = open_device api vid pid t w.service.world in
      (d.error, with_transport d.transport d.world w)

  unfoldable on_connect_clicked : Form → MainWindow T H W → Option TransportError × MainWindow T H W
  on_connect_clicked form w = elim (parse_usb_config form) [
    | none ↦ (none, record w { cfg = parsed_config form w.cfg })
    | some (vid, pid) ↦ configure_and_open vid pid (with_config (parsed_config form w.cfg) w)
  ]

  unfoldable on_disconnect_clicked : MainWindow T H W → MainWindow T H W
  on_disconnect_clicked w = close_transport w

  unfoldable pub on_stop_auto_sn_clicked : MainWindow T H W → MainWindow T H W
  on_stop_auto_sn_clicked w =
      close_if_open (record w { auto_sn_armed = false; auto_sn_timer = none })

  module _ (text : WindowText T) (fs : FileSystem T) (sn_mode : SnModeSettings T) where
    -- The write on a transport that has been opened, or the error.
    unfoldable pub write_opened :
        Now T → Option TransportError × MainWindow T H W → Run (Ticked T × MainWindow T H W)
    write_opened now (some e, w) = done (not_opened e, w)
    write_opened now (none, w) = do
      (o, w') ← write_current_serial_once api text fs sn_mode now w
      done (tried o, close_transport (armed_if (is_written o) w'))

    -- A tick with a device that has been written, or not.
    unfoldable pub tick_armed :
        Now T → ℕ → ℕ → Bool → MainWindow T H W → Run (Ticked T × MainWindow T H W)
    tick_armed now vid pid true w = done (waiting, w)
    tick_armed now vid pid false w = write_opened now (configure_and_open vid pid w)

    -- A tick with a device of the configured ids, or without.
    unfoldable pub tick_present :
        Now T → ℕ → ℕ → Bool → MainWindow T H W → Run (Ticked T × MainWindow T H W)
    tick_present now vid pid false w = done (absent, close_if_open (with_armed false w))
    tick_present now vid pid true w = tick_armed now vid pid w.auto_sn_armed w

    unfoldable pub tick_parsed :
        Now T
        → Option (ℕ × ℕ)
        → HidReportConfig
        → MainWindow T H W
        → Run (Ticked T × MainWindow T H W)
    tick_parsed now none cfg w = done (stopped, on_stop_auto_sn_clicked (record w { cfg = cfg }))
    tick_parsed now (some (vid, pid)) cfg w =
        let (present, world) = device_exists api vid pid w.service.world in
        tick_present now vid pid present
          (with_transport w.service.transport world (with_config cfg w))

    unfoldable pub on_auto_sn_tick :
        Form → Now T → MainWindow T H W → Run (Ticked T × MainWindow T H W)
    on_auto_sn_tick form now w =
        tick_parsed now (parse_usb_config form) (parsed_config form w.cfg) w

    unfoldable start_in_range : ℕ → Option (ℕ × ℕ) → MainWindow T H W → MainWindow T H W
    start_in_range poll_ms none w = w
    start_in_range poll_ms (some (width, next)) w = record w {
      next_serial = next;
      auto_sn_armed = false;
      auto_sn_timer = some poll_ms;
    }

    unfoldable on_start_auto_sn_clicked : Form → MainWindow T H W → MainWindow T H W
    on_start_auto_sn_clicked form w =
        if is_open w.service.transport then w else elim (text.serial.to_int sn_mode.sn_poll_ms) [
          | none ↦ w
          | some (negsuc _) ↦ w
          | some (pos poll_ms) ↦ if ltb poll_ms 100 then w else elim (parse_usb_config form) [
            | none ↦ record w { cfg = parsed_config form w.cfg }
            | some _ ↦
                start_in_range poll_ms (validate_serial_range text.serial sn_mode w.next_serial)
                  (with_config (parsed_config form w.cfg) w)
          ]
        ]

    -- The write behind `onWriteNextSerialClicked`, which leaves the transport open.
    unfoldable write_next :
        Now T → Option TransportError × MainWindow T H W → Run (Ticked T × MainWindow T H W)
    write_next now (some e, w) = done (not_opened e, w)
    write_next now (none, w) = do
      (o, w') ← write_current_serial_once api text fs sn_mode now w
      done (tried o, w')

    -- `stopped` where a field is no number.
    unfoldable on_write_next_serial_clicked :
        Form → Now T → MainWindow T H W → Run (Ticked T × MainWindow T H W)
    on_write_next_serial_clicked form now w = elim (parse_usb_config form) [
      | none ↦ done (stopped, record w { cfg = parsed_config form w.cfg })
      | some (vid, pid) ↦
          let w' : MainWindow T H W = with_config (parsed_config form w.cfg) w in
          if is_open w'.service.transport
          then write_next now (none, w')
          else write_next now (configure_and_open vid pid w')
    ]

    -- The ticks of a timer.
    unfoldable pub auto_sn_ticks :
        List (Form × Now T) → MainWindow T H W → Run (List (Ticked T) × MainWindow T H W)
    auto_sn_ticks [] w = done ([], w)
    auto_sn_ticks ((form, now) ∷ ticks) w = do
      (r, w') ← on_auto_sn_tick form now w
      (rs, w'') ← auto_sn_ticks ticks w'
      done (r ∷ rs, w'')
