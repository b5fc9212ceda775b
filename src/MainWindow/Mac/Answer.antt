-- ===== src/MainWindow/Mac/Answer.antt =====
-- Which MAC address is read, and what each error says.
use usb_hid_tool.Prelude.{
  ℕ, ◌≤◌, ◌<◌, ◌≡◌, ◌≢◌, ◌⊎◌, refl, List, [], ◌∷◌, Option, none, some, ltb, length, take, drop, map,
  arith, Bool-cases, inl, inr,
}
use usb_hid_tool.Run.{done, read, Returns, Returns-bind}
use usb_hid_tool.Race.Transport.{Hidapi, TransportError}
use usb_hid_tool.Race.Command.{Bytes, Qt, ParsedCommand, failed, parsed, parse_hex_string}
use usb_hid_tool.Race.Service.{
  RaceService, Event, Response, not_sent, timed_out, answered, request_response,
}
use usb_hid_tool.Race.Service.Request.{
  first_payload, response_to, answered-heard, timed_out-unheard, request_response-Responds,
}
use usb_hid_tool.MainWindow.Mac.{
  mac_command, mac_not_sent, mac_timeout, mac_too_short, mac_header, mac_id, mac_status, MacResult,
  mac_read, mac_failed, MacText, mac_parts, mac_of_response, mac_of_answer, request_mac,
  read_mac_address,
}

-- A response of type 0x5B to the command 0x0CD5 with a status.
abbrev IsMacResponse : Bytes → ℕ → Type 0
IsMacResponse resp status =
    (read resp 0 ≡ done 0x05)
    × (read resp 1 ≡ done 0x5B)
    × (read resp 4 ≡ done 0xD5)
    × (read resp 5 ≡ done 0x0C)
    × (read resp 6 ≡ done status)

module _ {T : Type 0} (qt : Qt T) (text : MacText T) where
  -- The text is that of the bytes 8 to 13, the last first.
  pub record ShowsMac (resp : Bytes) (mac : T) : Type 0 where
    pub b0 : ℕ
    pub b1 : ℕ
    pub b2 : ℕ
    pub b3 : ℕ
    pub b4 : ℕ
    pub b5 : ℕ
    pub bytes : take 6 (drop 8 resp) ≡ b0 ∷ b1 ∷ b2 ∷ b3 ∷ b4 ∷ b5 ∷ []
    pub shown : mac ≡ text.join_colon (map qt.two_digits (b5 ∷ b4 ∷ b3 ∷ b2 ∷ b1 ∷ b0 ∷ []))

  abbrev pub TellsMac : Bytes → MacResult T → Type 0
  TellsMac resp (mac_read mac) = IsMacResponse resp 0 × ShowsMac resp mac
  TellsMac resp (mac_failed mac_too_short) = length resp < 14
  TellsMac resp (mac_failed mac_header) =
      (14 ≤ length resp) × (read resp 0 ≡ done 0x05 → read resp 1 ≢ done 0x5B)
  TellsMac resp (mac_failed mac_id) =
      (14 ≤ length resp) × (read resp 4 ≡ done 0xD5 → read resp 5 ≢ done 0x0C)
  TellsMac resp (mac_failed (mac_status s)) = IsMacResponse resp s × (s ≢ 0)
  TellsMac resp (mac_failed (mac_command e)) = ⊥
  TellsMac resp (mac_failed (mac_not_sent e)) = ⊥
  TellsMac resp (mac_failed mac_timeout) = ⊥

  short-TellsMac :
      (resp : Bytes) → length resp < 14 → Returns (TellsMac resp) (mac_of_response qt text resp)
  unfolding mac_of_response
  short-TellsMac resp h = ground arith

  long-TellsMac :
      (resp : Bytes) → 14 ≤ length resp → Returns (TellsMac resp) (mac_of_response qt text resp)
  unfolding mac_of_response mac_parts
  long-TellsMac (r0 ∷ r1 ∷ r2 ∷ r3 ∷ r4 ∷ r5 ∷ r6 ∷ r7 ∷ b0 ∷ b1 ∷ b2 ∷ b3 ∷ b4 ∷ b5 ∷ r) h =
      told (record {
        b0 = b0;
        b1 = b1;
        b2 = b2;
        b3 = b3;
        b4 = b4;
        b5 = b5;
        bytes = refl;
        shown = refl;
      })
    where
      resp : Bytes
      resp = r0 ∷ r1 ∷ r2 ∷ r3 ∷ r4 ∷ r5 ∷ r6 ∷ r7 ∷ b0 ∷ b1 ∷ b2 ∷ b3 ∷ b4 ∷ b5 ∷ r

      told :
          ShowsMac resp (text.join_colon (map qt.two_digits (b5 ∷ b4 ∷ b3 ∷ b2 ∷ b1 ∷ b0 ∷ [])))
          → Returns (TellsMac resp) (mac_of_response qt text resp)
      told shows = ground arith
  long-TellsMac resp h = absurd (ground arith)

  pub mac_of_response-TellsMac :
      (resp : Bytes) → Returns (TellsMac resp) (mac_of_response qt text resp)
  mac_of_response-TellsMac resp = elim (Bool-cases (ltb (length resp) 14)) [
    | inl e ↦ short-TellsMac resp (ground arith)
    | inr e ↦ long-TellsMac resp (ground arith)
  ]

  -- The payload that the result was read from.
  pub record HeardMac (answer : Option Bytes) (r : MacResult T) : Type 0 where
    pub resp : Bytes
    pub heard : answer ≡ some resp
    pub tells : TellsMac resp r

  -- What holds of a result, by the command and the first payload.
  abbrev pub IsMacOf : ParsedCommand T → Option Bytes → MacResult T → Type 0
  IsMacOf cmd answer (mac_failed (mac_command e)) = cmd ≡ failed e
  IsMacOf cmd answer (mac_failed (mac_not_sent e)) = Unit
  IsMacOf cmd answer (mac_failed mac_timeout) = answer ≡ none
  IsMacOf cmd answer (mac_failed mac_too_short) = HeardMac answer (mac_failed mac_too_short)
  IsMacOf cmd answer (mac_failed mac_header) = HeardMac answer (mac_failed mac_header)
  IsMacOf cmd answer (mac_failed mac_id) = HeardMac answer (mac_failed mac_id)
  IsMacOf cmd answer (mac_failed (mac_status s)) = HeardMac answer (mac_failed (mac_status s))
  IsMacOf cmd answer (mac_read mac) = HeardMac answer (mac_read mac)

  module _ {H W : Type 0} (api : Hidapi H W) where
    heard-IsMacOf :
        (cmd : ParsedCommand T) (answer : Option Bytes) (resp : Bytes) (r : MacResult T)
        → answer ≡ some resp
        → TellsMac resp r
        → IsMacOf cmd answer r
    heard-IsMacOf cmd answer resp (mac_read mac) e t = record { resp = resp; heard = e; tells = t }
    heard-IsMacOf cmd answer resp (mac_failed mac_too_short) e t = record {
      resp = resp;
      heard = e;
      tells = t;
    }
    heard-IsMacOf cmd answer resp (mac_failed mac_header) e t = record {
      resp = resp;
      heard = e;
      tells = t;
    }
    heard-IsMacOf cmd answer resp (mac_failed mac_id) e t = record {
      resp = resp;
      heard = e;
      tells = t;
    }
    heard-IsMacOf cmd answer resp (mac_failed (mac_status s)) e t = record {
      resp = resp;
      heard = e;
      tells = t;
    }
    heard-IsMacOf cmd answer resp (mac_failed (mac_command x)) e t = absurd t
    heard-IsMacOf cmd answer resp (mac_failed (mac_not_sent x)) e t = tt
    heard-IsMacOf cmd answer resp (mac_failed mac_timeout) e t = absurd t

    mac_of_answer-IsMacOf :
        (cmd : ParsedCommand T) (answer : Option Bytes) (r : Response) (s : RaceService H W)
        → r ≡ response_to answer ⊎ ((e : TransportError) × (r ≡ not_sent e))
        → Returns (λ r. IsMacOf cmd answer r.0) (mac_of_answer qt text api r s)
    unfolding mac_of_answer
    mac_of_answer-IsMacOf cmd answer (not_sent e) s h = tt
    mac_of_answer-IsMacOf cmd answer timed_out s (inl e) = timed_out-unheard answer e
    mac_of_answer-IsMacOf cmd answer timed_out s (inr (x, e)) = absurd (ground arith)
    mac_of_answer-IsMacOf cmd answer (answered resp) s (inr (x, e)) = absurd (ground arith)
    mac_of_answer-IsMacOf cmd answer (answered resp) s (inl e) =
        Returns-bind (TellsMac resp) (λ r. IsMacOf cmd answer r.0) (mac_of_response qt text resp) _
          (mac_of_response-TellsMac resp)
          (λ r q t. heard-IsMacOf cmd answer resp r (answered-heard answer resp e) t)

    request_mac-IsMacOf :
        (cmd : ParsedCommand T) (target : ℕ) (events : List Event) (s : RaceService H W)
        → 3 ≤ s.cfg.report_size
        → Returns
            (λ (r, s'). IsMacOf cmd (first_payload s.cfg events) r)
            (request_mac qt text api cmd target events s)
    unfolding request_mac
    request_mac-IsMacOf (failed e) target events s h = refl
    request_mac-IsMacOf (parsed cmd) target events s h =
        Returns-bind _ (λ r. IsMacOf (parsed cmd) (first_payload s.cfg events) r.0)
          (request_response api cmd target events s) _
          (request_response-Responds api cmd target events s h)
          (λ r q a. mac_of_answer-IsMacOf (parsed cmd) (first_payload s.cfg events) r.0 r.1 a)

    -- With reports of at least three bytes `readMacAddress` returns and reads nothing outside the
    -- response. A MAC address is read only from the first payload accepted before the timer fires,
    -- a response of type 0x5B to the command 0x0CD5 with the status 0, and shows its bytes 8 to 13,
    -- the last first. A timeout means that no payload was accepted; each other error behind the
    -- request names what does not hold of that first payload.
    pub read_mac_address-IsMacOf :
        (target : ℕ) (events : List Event) (s : RaceService H W)
        → 3 ≤ s.cfg.report_size
        → Returns
            (λ (r, s'). IsMacOf (parse_hex_string qt text.command) (first_payload s.cfg events) r)
            (read_mac_address qt text api target events s)
    unfolding read_mac_address
    read_mac_address-IsMacOf target events s h =
        request_mac-IsMacOf (parse_hex_string qt text.command) target events s h
