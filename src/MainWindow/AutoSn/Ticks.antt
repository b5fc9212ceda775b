-- ===== src/MainWindow/AutoSn/Ticks.antt =====
-- Any number of ticks: how many devices are written, and what is open behind them.
use usb_hid_tool.Prelude.{
  ℕ, suc, ◌+◌, ◌≤◌, ◌≡◌, ap, Bool, true, false, List, [], ◌∷◌, if◌then◌else◌, arith,
}
use usb_hid_tool.Run.{Returns, Returns-bind}
use usb_hid_tool.Race.Transport.{Hidapi}
use usb_hid_tool.MainWindow.Settings.{SnModeSettings, Form}
use usb_hid_tool.MainWindow.Csv.{FileSystem}
use usb_hid_tool.MainWindow.Write.{WindowText, MainWindow, Now}
use usb_hid_tool.MainWindow.AutoSn.{
  Ticked, stopped, absent, waiting, not_opened, tried, is_written, on_auto_sn_tick, auto_sn_ticks,
}
use usb_hid_tool.MainWindow.AutoSn.Tick.{IsClosed, Arms, Left, on_auto_sn_tick-Left}

-- The serial numbers that are written.
abbrev writes : {T : Type 0} → List (Ticked T) → ℕ
writes [] = 0
writes (tried o ∷ rs) = if is_written o then suc (writes rs) else writes rs
writes (stopped ∷ rs) = writes rs
writes (absent ∷ rs) = writes rs
writes (waiting ∷ rs) = writes rs
writes (not_opened e ∷ rs) = writes rs

-- The ticks that find no device, or stop the timer.
abbrev gaps : {T : Type 0} → List (Ticked T) → ℕ
gaps [] = 0
gaps (stopped ∷ rs) = suc (gaps rs)
gaps (absent ∷ rs) = suc (gaps rs)
gaps (tried o ∷ rs) = gaps rs
gaps (waiting ∷ rs) = gaps rs
gaps (not_opened e ∷ rs) = gaps rs

-- How many devices may be written before the next gap.
abbrev pub allowed : Bool → ℕ
allowed true = 0
allowed false = 1

tried-writes :
    (b b' x : Bool) (n g : ℕ)
    → b ≡ false
    → b' ≡ x
    → n ≤ allowed b' + g
    → (if x then suc n else n) ≤ allowed b + g
tried-writes b b' true n g a e h = omega (arith, h, ap allowed a, ap allowed e)
tried-writes b b' false n g a e h = omega (arith, h, ap allowed a, ap allowed e)

Arms-writes :
    {T : Type 0} (b b' : Bool) (r : Ticked T) (rs : List (Ticked T))
    → Arms b r b'
    → writes rs ≤ allowed b' + gaps rs
    → writes (r ∷ rs) ≤ allowed b + gaps (r ∷ rs)
Arms-writes b b' stopped rs a h = omega (arith, h, ap allowed a)
Arms-writes b b' absent rs a h = omega (arith, h, ap allowed a)
Arms-writes b b' waiting rs a h = omega (arith, h, ap allowed a.0, ap allowed a.1)
Arms-writes b b' (not_opened e) rs a h = omega (arith, h, ap allowed a.0, ap allowed a.1)
Arms-writes b b' (tried o) rs a h = tried-writes b b' (is_written o) (writes rs) (gaps rs) a.0 a.1 h

module _ {T H W : Type 0} (api : Hidapi H W) (text : WindowText T) (fs : FileSystem T)
    (sn_mode : SnModeSettings T) where
  -- The transport is closed, and no more is written than there are gaps, and one for a device that is new.
  abbrev pub OncePerDevice : MainWindow T H W → List (Ticked T) × MainWindow T H W → Type 0
  OncePerDevice w (rs, w') = IsClosed w' × (writes rs ≤ allowed w.auto_sn_armed + gaps rs)

  -- From a closed transport, with reports of at least three bytes, any number of timer ticks return,
  -- whatever the devices, the fields and the files are. They leave the transport closed. They write
  -- no more serial numbers than there are ticks that find no device or stop the timer, and one
  -- more for a device that was not written before: a device that stays in is written at most once.
  pub auto_sn_ticks-OncePerDevice :
      (ticks : List (Form × Now T)) (w : MainWindow T H W)
      → IsClosed w
      → 3 ≤ w.cfg.report_size
      → Returns (OncePerDevice w) (auto_sn_ticks api text fs sn_mode ticks w)
  unfolding auto_sn_ticks
  auto_sn_ticks-OncePerDevice [] w c h = (c, omega arith)
  auto_sn_ticks-OncePerDevice ((form, now) ∷ ticks) w c h =
      Returns-bind (Left w) (OncePerDevice w) (on_auto_sn_tick api text fs sn_mode form now w) _
        (on_auto_sn_tick-Left api text fs sn_mode now form w c h)
        (λ p q l.
          Returns-bind (OncePerDevice p.1) (OncePerDevice w)
            (auto_sn_ticks api text fs sn_mode ticks p.1) _
            (auto_sn_ticks-OncePerDevice ticks p.1 l.closed (omega (arith, h, l.size)))
            (λ r q' o. (o.0, Arms-writes w.auto_sn_armed p.1.auto_sn_armed p.0 r.0 l.arms o.1)))
