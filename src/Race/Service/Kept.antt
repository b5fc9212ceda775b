-- ===== src/Race/Service/Kept.antt =====
-- A request keeps the configuration of the service.
use usb_hid_tool.Prelude.{ℕ, ◌≤◌, ◌≡◌, refl, ◌∙◌, List, [], ◌∷◌, Option, none, some, arith, ap}
use usb_hid_tool.Run.{done, ◌>>=◌, Returns, Returns-bind}
use usb_hid_tool.Race.Packet.{Bytes, HidReportConfig, accepted, no_data, refused, parse_in_report}
use usb_hid_tool.Race.Packet.Parse.{Describes, parse_in_report-Describes}
use usb_hid_tool.Race.Transport.{Hidapi, TransportError}
use usb_hid_tool.Race.Service.{
  RaceService, Event, report, timeout, not_sent, on_hid_report_received, event_loop, send_single,
  response_of, request_response,
}
use usb_hid_tool.Race.Service.Request.{send_single-Kept}

module _ {H W : Type 0} (api : Hidapi H W) where
  -- The configuration that a result is left with.
  abbrev pub HasCfg {ℓ} : {A : Type ℓ} → HidReportConfig → A × RaceService H W → Type 0
  HasCfg cfg (r, s) = s.cfg ≡ cfg

  on_hid_report_received-HasCfg :
      (raw : Bytes) (s : RaceService H W)
      → 3 ≤ s.cfg.report_size
      → Returns (HasCfg s.cfg) (on_hid_report_received api raw s)
  unfolding on_hid_report_received
  on_hid_report_received-HasCfg raw s h =
      Returns-bind (Describes s.cfg raw) (HasCfg s.cfg) (parse_in_report raw s.cfg) _
        (parse_in_report-Describes raw s.cfg h)
        elim [
          | accepted payload target ↦ λ e d. refl
          | no_data ↦ λ e d. refl
          | refused x ↦ λ e d. refl
        ]

  event_loop-HasCfg :
      (cfg : HidReportConfig) (events : List Event) (s : RaceService H W)
      → 3 ≤ cfg.report_size
      → s.cfg ≡ cfg
      → Returns (HasCfg cfg) (event_loop api events s)
  unfolding event_loop
  event_loop-HasCfg cfg [] s h e = e
  event_loop-HasCfg cfg (timeout ∷ events) s h e = e
  event_loop-HasCfg cfg (report raw ∷ events) s h e =
      Returns-bind (HasCfg s.cfg) (HasCfg cfg) (on_hid_report_received api raw s) _
        (on_hid_report_received-HasCfg raw s (omega (arith, ap (λ c. c.report_size) e)))
        (next (event_loop-HasCfg cfg events))
    where
      next :
          ((s' : RaceService H W)
            → 3 ≤ cfg.report_size
            → s'.cfg ≡ cfg
            → Returns (HasCfg cfg) (event_loop api events s'))
          → (a : Option (Bytes × ℕ) × RaceService H W) → on_hid_report_received api raw s ≡ done a
          → HasCfg s.cfg a
          → Returns
              (HasCfg cfg)
              (elim a.0 [ none ↦ event_loop api events a.1 | some x ↦ done (x.0, a.1) ])
      next rec (some x, s') q k = k ∙ e
      next rec (none, s') q k = rec s' h (k ∙ e)

  pub request_response-HasCfg :
      (cmd : Bytes) (target : ℕ) (events : List Event) (s : RaceService H W)
      → 3 ≤ s.cfg.report_size
      → Returns (HasCfg s.cfg) (request_response api cmd target events s)
  unfolding request_response
  request_response-HasCfg cmd target events s h =
      Returns-bind (HasCfg s.cfg) (HasCfg s.cfg) (send_single api cmd target s) _
        (send_single-Kept api cmd target s h) next
    where
      next :
          (a : Option TransportError × RaceService H W)
          → send_single api cmd target s ≡ done a
          → HasCfg s.cfg a
          → Returns (HasCfg s.cfg) (elim a.0 [
            | none ↦ event_loop api events a.1 >>= λ p. done (response_of p.0, p.1)
            | some e ↦ done (not_sent e, a.1)
          ])
      next (some e, s') q k = k
      next (none, s') q k =
          Returns-bind (HasCfg s.cfg) (HasCfg s.cfg) (event_loop api events s') _
            (event_loop-HasCfg s.cfg events s' h k) (λ p _ d. d)
