-- ===== src/Race/Serial.antt =====
-- src/service/serial_number_service.cpp: the command of a template and the write of a serial number.
use usb_hid_tool.Prelude.{ℕ, ◌≤◌, ◌≡◌, ◌⊎◌, refl, List, Option, none, some, arith, inl, inr}
use usb_hid_tool.Run.{Run, done, ◌>>=◌, Returns, Returns-bind}
use usb_hid_tool.Race.Transport.{Hidapi, TransportError}
use usb_hid_tool.Race.Command.{
  Bytes, Qt, CommandError, ParsedCommand, failed, parsed, parse_hex_string,
}
use usb_hid_tool.Race.Response.{
  Check, success, too_short, wrong_type, id_mismatch, status_fail, check_race_general_success,
  IsResponse, Tells, check_race_general_success-Tells,
}
use usb_hid_tool.Race.Service.{
  RaceService, Event, Response, not_sent, timed_out, answered, request_response,
}
use usb_hid_tool.Race.Service.Request.{
  first_payload, response_to, answered-heard, request_response-Responds,
}

-- The texts of a template: `replace`, the two placeholders, and `toUtf8().toHex(' ')` in upper case.
pub record Template (T : Type 0) : Type 0 where
  pub replace : T → T → T → T
  pub serial_ascii : T
  pub serial_hex : T
  pub hex_of : T → T

-- `errMsg` of a write.
pub data WriteError (T : Type 0) : Type 0 where
  bad_command : CommandError T → WriteError T
  not_written : TransportError → WriteError T
  no_answer : WriteError T
  bad_answer : Check → WriteError T

abbrev error_of : {T : Type 0} → Check → Option (WriteError T)
error_of success = none
error_of too_short = some (bad_answer too_short)
error_of wrong_type = some (bad_answer wrong_type)
error_of id_mismatch = some (bad_answer id_mismatch)
error_of (status_fail s) = some (bad_answer (status_fail s))

module _ {T : Type 0} (qt : Qt T) (template : Template T) where
  unfoldable pub build_cmd_from_template : T → T → ParsedCommand T
  build_cmd_from_template hex_template serial =
      let text = template.replace hex_template template.serial_ascii (template.hex_of serial) in
      parse_hex_string qt (template.replace text template.serial_hex serial)

  module _ {H W : Type 0} (api : Hidapi H W) where
    -- What comes of the response.
    unfoldable pub judge :
        Bytes → Response → RaceService H W → Run (Option (WriteError T) × RaceService H W)
    judge cmd (not_sent e) s = done (some (not_written e), s)
    judge cmd timed_out s = done (some no_answer, s)
    judge cmd (answered resp) s = do
      check ← check_race_general_success cmd resp
      done (error_of check, s)

    -- What follows the command, with the events of its request.
    unfoldable pub write_command :
        ParsedCommand T
        → ℕ
        → List Event
        → RaceService H W
        → Run (Option (WriteError T) × RaceService H W)
    write_command (failed e) target events s = done (some (bad_command e), s)
    write_command (parsed cmd) target events s = do
      (r, s') ← request_response api cmd target events s
      judge cmd r s'

    unfoldable pub write_serial_by_template :
        T → T → ℕ → List Event → RaceService H W → Run (Option (WriteError T) × RaceService H W)
    write_serial_by_template hex_template serial target events s =
        write_command (build_cmd_from_template hex_template serial) target events s

    -- The command of the template, when it is one, got a response with the status 0 for it.
    pub record Confirmed (cmd : Bytes) (answer : Option Bytes) : Type 0 where
      pub resp : Bytes
      pub heard : answer ≡ some resp
      pub confirms : IsResponse cmd resp 0

    -- What holds when no error is returned.
    abbrev Confirms : Bytes → Option Bytes → Option (WriteError T) → Type 0
    Confirms cmd answer none = Confirmed cmd answer
    Confirms cmd answer (some e) = Unit

    judge-Confirms :
        (cmd : Bytes) (answer : Option Bytes) (r : Response) (s : RaceService H W)
        → r ≡ response_to answer ⊎ ((e : TransportError) × (r ≡ not_sent e))
        → Returns (λ r. Confirms cmd answer r.0) (judge cmd r s)
    unfolding judge
    judge-Confirms cmd answer (not_sent e) s h = tt
    judge-Confirms cmd answer timed_out s h = tt
    judge-Confirms cmd answer (answered resp) s (inr (x, e)) = absurd (ground arith)
    judge-Confirms cmd answer (answered resp) s (inl e) =
        Returns-bind (Tells cmd resp) (λ r. Confirms cmd answer r.0)
          (check_race_general_success cmd resp) _ (check_race_general_success-Tells cmd resp)
          (told (answered-heard answer resp e))
      where
        told :
            answer ≡ some resp
            → (c : Check) → check_race_general_success cmd resp ≡ done c
            → Tells cmd resp c
            → Confirms cmd answer (error_of c)
        told a success q t = record { resp = resp; heard = a; confirms = t }
        told a too_short q t = tt
        told a wrong_type q t = tt
        told a id_mismatch q t = tt
        told a (status_fail x) q t = tt

    -- What holds of a write by the command of its template.
    abbrev pub Wrote : ParsedCommand T → Option Bytes → Option (WriteError T) → Type 0
    Wrote (failed e) answer r = r ≡ some (bad_command e)
    Wrote (parsed cmd) answer r = Confirms cmd answer r

    write_command-Wrote :
        (p : ParsedCommand T) (target : ℕ) (events : List Event) (s : RaceService H W)
        → 3 ≤ s.cfg.report_size
        → Returns
            (λ (r, s'). Wrote p (first_payload s.cfg events) r)
            (write_command p target events s)
    unfolding write_command
    write_command-Wrote (failed e) target events s h = refl
    write_command-Wrote (parsed cmd) target events s h =
        Returns-bind _ (λ r. Confirms cmd (first_payload s.cfg events) r.0)
          (request_response api cmd target events s) _
          (request_response-Responds api cmd target events s h)
          (λ r q a. judge-Confirms cmd (first_payload s.cfg events) r.0 r.1 a)

    -- With reports of at least three bytes a write of a serial number returns. A template that makes
    -- no command fails with the error of the parser; else it succeeds only if the first payload
    -- that is accepted before the timer fires is a response of type 0x5B to the command of the
    -- template, with the status 0.
    pub write_serial_by_template-Wrote :
        (hex_template serial : T) (target : ℕ) (events : List Event) (s : RaceService H W)
        → 3 ≤ s.cfg.report_size
        → Returns
            (λ (r, s').
              Wrote (build_cmd_from_template hex_template serial) (first_payload s.cfg events) r)
            (write_serial_by_template hex_template serial target events s)
    unfolding write_serial_by_template
    write_serial_by_template-Wrote hex_template serial target events s h =
        write_command-Wrote (build_cmd_from_template hex_template serial) target events s h
