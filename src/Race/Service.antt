-- ===== src/Race/Service.antt =====
-- src/service/race_service.cpp: `RaceService`. Texts are a parameter, as in the command parser, and
-- so is hidapi, as in the transport. Log lines carry bytes; the wording is left out.
pub mod Sequence
pub mod Request
pub mod Kept
use usb_hid_tool.Prelude.{
  ℕ, zero, suc, ◌+◌, Bool, true, false, ◌||◌, List, [], ◌∷◌, ◌++◌, Option, none, some,
  if◌then◌else◌,
}
use usb_hid_tool.Run.{Run, done, ◌>>=◌}
use usb_hid_tool.Race.Packet.{
  Bytes, HidReportConfig, build_out_report, ParseError, Parsed, accepted, no_data, refused,
  parse_in_report,
}
use usb_hid_tool.Race.Transport.{Hidapi, TransportError, HidTransport, write_report}
use usb_hid_tool.Race.Command.{Qt, CommandError, ParsedCommand, failed, parsed, parse_hex_string}

pub data LogLine : Type 0 where
  tx rx : ℕ → Bytes → LogLine
  rx_error : ParseError → LogLine

-- `RaceService` with the transport it points to and what it has emitted.
pub record RaceService (H W : Type 0) : Type 0 where
  pub cfg : HidReportConfig
  pub transport : HidTransport H
  pub world : W
  pub log : List LogLine

-- `errMsg` of a sequence: the number of the line and why it failed.
pub data SequenceError (T : Type 0) : Type 0 where
  parse_failed : ℕ → CommandError T → SequenceError T
  send_failed : ℕ → TransportError → SequenceError T

-- The tests of a line: `trimmed()`, `isEmpty()`, `startsWith('#')`.
pub record Lines (T : Type 0) : Type 0 where
  pub trimmed : T → T
  pub is_blank : T → Bool
  pub is_comment : T → Bool

-- What comes in while `requestResponse` runs its event loop: a report, or the timer.
pub data Event : Type 0 where
  report : Bytes → Event
  timeout : Event

-- The result of `requestResponse`.
pub data Response : Type 0 where
  not_sent : TransportError → Response
  timed_out : Response
  answered : Bytes → Response

-- An empty payload is a timeout.
abbrev pub response_of : Bytes → Response
response_of [] = timed_out
response_of (b ∷ bs) = answered (b ∷ bs)

module _ {H W : Type 0} (api : Hidapi H W) where
  unfoldable pub send_single :
      Bytes → ℕ → RaceService H W → Run (Option TransportError × RaceService H W)
  send_single cmd target s = do
    raw ← build_out_report cmd target s.cfg
    let d = write_report api raw s.transport s.world in
        elim d.error [
          | some e ↦ done (some e, record s { transport = d.transport; world = d.world })
          | none ↦ done (
            none,
            record s {
              transport = d.transport;
              world = d.world;
              log = s.log ++ (tx target cmd ∷ []);
            },
          )
        ]

  module _ {T : Type 0} (qt : Qt T) (lines : Lines T) where
    -- One line, with the number that an error gives it; `none` goes on to the next line.
    unfoldable pub send_line :
        ℕ → T → ℕ → RaceService H W → Run (Option (SequenceError T) × RaceService H W)
    send_line number line target s =
        if lines.is_blank line || lines.is_comment line
        then done (none, s)
        else elim (parse_hex_string qt line) [
          | failed e ↦ done (some (parse_failed number e), s)
          | parsed cmd ↦ (do
            (e, s') ← send_single cmd target s
            elim e [ some e ↦ done (some (send_failed number e), s') | none ↦ done (none, s') ])
        ]

    -- The lines from index `i` on.
    unfoldable pub send_lines :
        ℕ → List T → ℕ → RaceService H W → Run (Option (SequenceError T) × RaceService H W)
    send_lines i [] target s = done (none, s)
    send_lines i (hex_line ∷ hex_lines) target s = do
      (e, s') ← send_line (i + 1) (lines.trimmed hex_line) target s
      elim e [ some e ↦ done (some e, s') | none ↦ send_lines (i + 1) hex_lines target s' ]

    unfoldable pub send_sequence :
        List T → ℕ → RaceService H W → Run (Option (SequenceError T) × RaceService H W)
    send_sequence hex_lines target s = send_lines 0 hex_lines target s

  -- The payload that is emitted for a report, if any.
  unfoldable pub on_hid_report_received :
      Bytes → RaceService H W → Run (Option (Bytes × ℕ) × RaceService H W)
  on_hid_report_received raw s = do
    r ← parse_in_report raw s.cfg
    elim r [
      | refused e ↦ done (none, record s { log = s.log ++ (rx_error e ∷ []) })
      | no_data ↦ done (none, s)
      | accepted payload target ↦
          done (some (payload, target), record s { log = s.log ++ (rx target payload ∷ []) })
    ]

  -- The event loop, which a payload or the timer quits; the timer fires after the last event.
  unfoldable pub event_loop : List Event → RaceService H W → Run (Bytes × RaceService H W)
  event_loop [] s = done ([], s)
  event_loop (timeout ∷ events) s = done ([], s)
  event_loop (report raw ∷ events) s = do
    (p, s') ← on_hid_report_received raw s
    elim p [ none ↦ event_loop events s' | some (payload, target) ↦ done (payload, s') ]

  unfoldable pub request_response :
      Bytes → ℕ → List Event → RaceService H W → Run (Response × RaceService H W)
  request_response cmd target events s = do
    (e, s') ← send_single cmd target s
    elim e [
      | some e ↦ done (not_sent e, s')
      | none ↦ (do (payload, s'') ← event_loop events s'; done (response_of payload, s''))
    ]
