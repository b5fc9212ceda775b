-- ===== src/MainWindow/AutoSn/Tick.antt =====
-- What a tick leaves: a closed transport, and whether the device is still to be written.
use usb_hid_tool.Prelude.{
  ℕ, ◌≤◌, ◌≡◌, refl, ap, ◌∙◌, Bool, true, false, List, [], ◌∷◌, Option, none, some, arith,
  Bool-cases, Option-cases, inl, inr,
}
use usb_hid_tool.Run.{Returns, Returns-bind, Returns-mono}
use usb_hid_tool.Race.Packet.{HidReportConfig}
use usb_hid_tool.Race.Transport.{
  Hidapi, TransportError, HidTransport, is_open, configure_input_polling, pick_device_path, close,
  open_at, open_device,
}
use usb_hid_tool.MainWindow.Settings.{SnModeSettings, Form, parsed_config, parse_usb_config}
use usb_hid_tool.MainWindow.Csv.{FileSystem}
use usb_hid_tool.MainWindow.Write.{
  WindowText, MainWindow, Now, WriteOutcome, write_current_serial_once,
}
use usb_hid_tool.MainWindow.Write.Outcome.{Keeps}
use usb_hid_tool.MainWindow.Write.Decided.{write_current_serial_once-Keeps}
use usb_hid_tool.MainWindow.AutoSn.{
  Ticked, stopped, absent, waiting, not_opened, tried, is_written, device_exists, close_transport,
  close_if_open, configure_and_open, on_stop_auto_sn_clicked, write_opened, tick_armed, armed_if,
  with_armed, with_transport, with_config, tick_present, tick_parsed, on_auto_sn_tick,
}

abbrev pub IsClosed : {T H W : Type 0} → MainWindow T H W → Type 0
IsClosed w = is_open w.service.transport ≡ false

module _ {H W : Type 0} (api : Hidapi H W) where
  close-closed : (t : HidTransport H) (w : W) → is_open (close api t w).0 ≡ false
  unfolding close is_open
  close-closed t w = elim (Option-cases t.device) [
    | inl e ↦ ground (arith, e)
    | inr (h, e) ↦ ground (arith, e)
  ]

  open_at-closed :
      (path : List ℕ) (t : HidTransport H) (w : W) (e : TransportError)
      → is_open t ≡ false
      → (open_at api path t w).error ≡ some e
      → is_open (open_at api path t w).transport ≡ false
  unfolding open_at is_open
  open_at-closed [] t w e s q = s
  open_at-closed (p ∷ ps) t w e s q = elim (Option-cases (api.open_path w (p ∷ ps)).0) [
    | inl n ↦ ground (arith, n, s, q)
    | inr (h, n) ↦ ground (arith, n, s, q)
  ]

  -- A transport that could not be opened is closed.
  open_device-closed :
      (vid pid : ℕ) (t : HidTransport H) (w : W) (e : TransportError)
      → (open_device api vid pid t w).error ≡ some e
      → is_open (open_device api vid pid t w).transport ≡ false
  unfolding open_device pick_device_path is_open
  open_device-closed vid pid t w e q =
      open_at-closed _
        (record (close api t w).0 {
          poll_input_report_id = t.poll_input_report_id;
          poll_read_buffer_size = t.poll_read_buffer_size;
        })
        _ e (close-closed t w) q

-- A window whose transport was to be opened.
record IsOpening {T H W : Type 0} (w : MainWindow T H W)
    (r : Option TransportError × MainWindow T H W) : Type 0 where
  closed : (e : TransportError) → r.0 ≡ some e → IsClosed r.1
  keeps : Keeps w r.1

module _ {T H W : Type 0} (api : Hidapi H W) where
  close_transport-IsClosed : (w : MainWindow T H W) → IsClosed (close_transport api w)
  unfolding close_transport
  close_transport-IsClosed w = close-closed api w.service.transport w.service.world

  close_if_open-IsClosed : (w : MainWindow T H W) → IsClosed (close_if_open api w)
  unfolding close_if_open
  close_if_open-IsClosed w = elim (Bool-cases (is_open w.service.transport)) [
    | inl e ↦ rw e (close_transport-IsClosed w)
    | inr e ↦ rw e e
  ]

  configure_and_open-IsOpening :
      (vid pid : ℕ) (w : MainWindow T H W) → IsOpening w (configure_and_open api vid pid w)
  unfolding configure_and_open
  configure_and_open-IsOpening vid pid w = record {
    closed = λ e q.
        open_device-closed api vid pid
          (configure_input_polling w.service.transport w.cfg.in_report_id w.cfg.report_size)
          w.service.world e q;
    keeps = record { service_cfg = refl; window_cfg = refl; armed = refl; timer = refl };
  }

-- What a tick does, by whether the device was armed before and is armed after it.
abbrev pub Arms : {T : Type 0} → Bool → Ticked T → Bool → Type 0
Arms b stopped b' = b' ≡ false
Arms b absent b' = b' ≡ false
Arms b waiting b' = (b ≡ true) × (b' ≡ true)
Arms b (not_opened e) b' = (b ≡ false) × (b' ≡ false)
Arms b (tried o) b' = (b ≡ false) × (b' ≡ is_written o)

-- What a tick leaves.
pub record Left {T H W : Type 0} (w : MainWindow T H W) (r : Ticked T × MainWindow T H W)
    : Type 0 where
  pub closed : IsClosed r.1
  pub arms : Arms w.auto_sn_armed r.0 r.1.auto_sn_armed
  pub size : r.1.cfg.report_size ≡ w.cfg.report_size

module _ {T H W : Type 0} (api : Hidapi H W) (text : WindowText T) (fs : FileSystem T)
    (sn_mode : SnModeSettings T) (now : Now T) where
  close_transport-armed :
      (w : MainWindow T H W) → (close_transport api w).auto_sn_armed ≡ w.auto_sn_armed
  unfolding close_transport
  close_transport-armed w = refl

  close_transport-cfg : (w : MainWindow T H W) → (close_transport api w).cfg ≡ w.cfg
  unfolding close_transport
  close_transport-cfg w = refl

  armed_if-armed :
      (b : Bool) (v : MainWindow T H W) → v.auto_sn_armed ≡ false → (armed_if b v).auto_sn_armed ≡ b
  armed_if-armed true v a = refl
  armed_if-armed false v a = a

  armed_if-cfg : (b : Bool) (v : MainWindow T H W) → (armed_if b v).cfg ≡ v.cfg
  armed_if-cfg true v = refl
  armed_if-cfg false v = refl

  finished-Left :
      (w v : MainWindow T H W) (o : WriteOutcome T)
      → w.auto_sn_armed ≡ false
      → Keeps w v
      → Left w (tried o, close_transport api (armed_if (is_written o) v))
  finished-Left w v o a k = record {
    closed = close_transport-IsClosed api (armed_if (is_written o) v);
    arms = (
      a,
      close_transport-armed (armed_if (is_written o) v)
          ∙ armed_if-armed (is_written o) v (k.armed ∙ a),
    );
    size =
        ap (λ c. c.report_size)
          (close_transport-cfg (armed_if (is_written o) v)
            ∙ armed_if-cfg (is_written o) v
            ∙ k.window_cfg);
  }

  write_opened-Left :
      (w : MainWindow T H W) (r : Option TransportError × MainWindow T H W)
      → w.auto_sn_armed ≡ false
      → 3 ≤ w.service.cfg.report_size
      → IsOpening w r
      → Returns (Left w) (write_opened api text fs sn_mode now r)
  unfolding write_opened
  write_opened-Left w (some e, v) a h o = record {
    closed = o.closed e refl;
    arms = (a, o.keeps.armed ∙ a);
    size = ap (λ c. c.report_size) o.keeps.window_cfg;
  }
  write_opened-Left w (none, v) a h o =
      Returns-bind (λ r. Keeps v r.1) (Left w) (write_current_serial_once api text fs sn_mode now v)
        _
        (write_current_serial_once-Keeps api text fs sn_mode now v
          (omega (arith, h, ap (λ c. c.report_size) o.keeps.service_cfg)))
        (λ r q k. finished-Left w r.1 r.0 a (both o.keeps k))
    where
      both : {u : MainWindow T H W} → Keeps w v → Keeps v u → Keeps w u
      both k l = record {
        service_cfg = l.service_cfg ∙ k.service_cfg;
        window_cfg = l.window_cfg ∙ k.window_cfg;
        armed = l.armed ∙ k.armed;
        timer = l.timer ∙ k.timer;
      }

  tick_armed-Left :
      (vid pid : ℕ) (b : Bool) (w : MainWindow T H W)
      → w.auto_sn_armed ≡ b
      → IsClosed w
      → 3 ≤ w.service.cfg.report_size
      → Returns (Left w) (tick_armed api text fs sn_mode now vid pid b w)
  unfolding tick_armed
  tick_armed-Left vid pid true w a c h = record { closed = c; arms = (a, a); size = refl }
  tick_armed-Left vid pid false w a c h =
      write_opened-Left w (configure_and_open api vid pid w) a h
        (configure_and_open-IsOpening api vid pid w)

  -- The window without a device, closed if it is not.
  close_if_open-Left :
      (w v : MainWindow T H W) (r : Ticked T)
      → ((b : Bool) → b ≡ false → Arms w.auto_sn_armed r b)
      → v.auto_sn_armed ≡ false
      → v.cfg.report_size ≡ w.cfg.report_size
      → Left w (r, close_if_open api v)
  unfolding close_if_open close_transport
  close_if_open-Left w v r arms a e = elim (Bool-cases (is_open v.service.transport)) [
    | inl o ↦ rw o (record {
      closed = close_transport-IsClosed api v;
      arms = arms v.auto_sn_armed a;
      size = e;
    })
    | inr o ↦ rw o (record { closed = o; arms = arms v.auto_sn_armed a; size = e })
  ]

  tick_present-Left :
      (vid pid : ℕ) (present : Bool) (w : MainWindow T H W)
      → IsClosed w
      → 3 ≤ w.service.cfg.report_size
      → Returns (Left w) (tick_present api text fs sn_mode now vid pid present w)
  unfolding tick_present
  tick_present-Left vid pid false w c h =
      close_if_open-Left w (with_armed false w) absent (λ b e. e) refl refl
  tick_present-Left vid pid true w c h = tick_armed-Left vid pid w.auto_sn_armed w refl c h

  tick_parsed-Left :
      (ids : Option (ℕ × ℕ)) (cfg : HidReportConfig) (w : MainWindow T H W)
      → IsClosed w
      → 3 ≤ cfg.report_size
      → cfg.report_size ≡ w.cfg.report_size
      → Returns (Left w) (tick_parsed api text fs sn_mode now ids cfg w)
  unfolding tick_parsed on_stop_auto_sn_clicked
  tick_parsed-Left none cfg w c h e =
      close_if_open-Left w (record w { cfg = cfg; auto_sn_armed = false; auto_sn_timer = none })
        stopped (λ b q. q) refl e
  tick_parsed-Left (some (vid, pid)) cfg w c h e =
      Returns-mono (tick_present api text fs sn_mode now vid pid present found)
        (λ r l. record { closed = l.closed; arms = l.arms; size = l.size ∙ e })
        (tick_present-Left vid pid present found c h)
    where
      present : Bool
      present = (device_exists api vid pid w.service.world).0

      found : MainWindow T H W
      found =
          with_transport w.service.transport (device_exists api vid pid w.service.world).1
            (with_config cfg w)

  pub on_auto_sn_tick-Left :
      (form : Form) (w : MainWindow T H W)
      → IsClosed w
      → 3 ≤ w.cfg.report_size
      → Returns (Left w) (on_auto_sn_tick api text fs sn_mode form now w)
  unfolding on_auto_sn_tick parsed_config
  on_auto_sn_tick-Left form w c h =
      tick_parsed-Left (parse_usb_config form) (parsed_config form w.cfg) w c h refl
