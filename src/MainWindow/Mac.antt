-- ===== src/MainWindow/Mac.antt =====
-- src/ui/main_window.cpp: `MainWindow::readMacAddress`.
pub mod Answer
use usb_hid_tool.Prelude.{
  ℕ, zero, suc, ◌≤◌, ◌≡◌, ◌≢◌, ◌⊎◌, refl, Bool, true, false, not, ◌||◌, List, [], ◌∷◌, Option, none,
  some, ltb, ◌==◌, if◌then◌else◌, length, take, drop, map, arith, Bool-cases, inl, inr,
}
use usb_hid_tool.Run.{Run, done, ◌>>=◌, read, Returns, Returns-bind}
use usb_hid_tool.Race.Transport.{Hidapi, TransportError}
use usb_hid_tool.Race.Command.{
  Bytes, Qt, CommandError, ParsedCommand, failed, parsed, parse_hex_string,
}
use usb_hid_tool.Race.Service.{
  RaceService, Event, Response, not_sent, timed_out, answered, request_response,
}

pub data MacError (T : Type 0) : Type 0 where
  mac_command : CommandError T → MacError T
  mac_not_sent : TransportError → MacError T
  mac_timeout mac_too_short mac_header mac_id : MacError T
  mac_status : ℕ → MacError T

-- `macString` with true, or `errMsg` with false.
pub data MacResult (T : Type 0) : Type 0 where
  mac_read : T → MacResult T
  mac_failed : MacError T → MacResult T

-- The texts: the command "05 5A 03 00 D5 0C 00", and `join(':')`.
pub record MacText (T : Type 0) : Type 0 where
  pub command : T
  pub join_colon : List T → T

module _ {T : Type 0} (qt : Qt T) (text : MacText T) where
  -- The loop from index `i - 1` down to 0.
  unfoldable pub mac_parts : ℕ → Bytes → Run (List T)
  mac_parts zero mac_le = done []
  mac_parts (suc i) mac_le = do
    b ← read mac_le i
    parts ← mac_parts i mac_le
    done (qt.two_digits b ∷ parts)

  unfoldable pub mac_of_response : Bytes → Run (MacResult T)
  mac_of_response resp = if ltb (length resp) 14 then done (mac_failed mac_too_short) else (do
    r0 ← read resp 0
    r1 ← read resp 1
    if not (r0 == 0x05) || not (r1 == 0x5B) then done (mac_failed mac_header) else (do
      r4 ← read resp 4
      r5 ← read resp 5
      if not (r4 == 0xD5) || not (r5 == 0x0C) then done (mac_failed mac_id) else (do
        status ← read resp 6
        if not (status == 0) then done (mac_failed (mac_status status)) else (do
          let mac_le = take 6 (drop 8 resp)
          parts ← mac_parts (length mac_le) mac_le
          done (mac_read (text.join_colon parts))))))

  module _ {H W : Type 0} (api : Hidapi H W) where
    unfoldable pub mac_of_answer : Response → RaceService H W → Run (MacResult T × RaceService H W)
    mac_of_answer (not_sent e) s = done (mac_failed (mac_not_sent e), s)
    mac_of_answer timed_out s = done (mac_failed mac_timeout, s)
    mac_of_answer (answered resp) s = do r ← mac_of_response resp; done (r, s)

    unfoldable pub request_mac :
        ParsedCommand T → ℕ → List Event → RaceService H W → Run (MacResult T × RaceService H W)
    request_mac (failed e) target events s = done (mac_failed (mac_command e), s)
    request_mac (parsed cmd) target events s = do
      (r, s') ← request_response api cmd target events s
      mac_of_answer r s'

    unfoldable pub read_mac_address :
        ℕ → List Event → RaceService H W → Run (MacResult T × RaceService H W)
    read_mac_address target events s =
        request_mac (parse_hex_string qt text.command) target events s
