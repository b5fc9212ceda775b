-- ===== src/Tests/Service.antt =====
-- Commands, sequences and requests of the tool, on texts that are lists of one-number tokens.
use usb_hid_tool.Prelude.{
  ℕ, suc, ◌≡◌, ◌⊎◌, refl, ap, Bool, true, false, List, [], ◌∷◌, ◌++◌, Option, none, some, arith,
  length, map, ◌==◌, inl, inr,
}
use usb_hid_tool.Prelude.Int.{ℤ, pos}
use usb_hid_tool.Run.{done, Returns, All}
use usb_hid_tool.Race.Packet.{HidReportConfig, build_out_report, copy_command, parse_in_report}
use usb_hid_tool.Race.Packet.Parse.{in_report}
use usb_hid_tool.Race.Transport.{Hidapi, HidTransport, write_report}
use usb_hid_tool.Race.Command.{
  Bytes, Qt, invalid_byte, empty_command, failed, parsed, parse_tokens, parse_hex_string,
  to_hex_string,
}
use usb_hid_tool.Race.Command.RoundTrip.{
  Prints, Reads, parse_hex_string-to_hex_string, parse_hex_string-Reads,
}
use usb_hid_tool.Race.Service.{
  RaceService, Lines, parse_failed, tx, Event, report, timeout, Response, send_single,
  send_sequence, request_response,
}
use usb_hid_tool.Race.Service.Sequence.{IsReadable, send_sequence-Sends, send_sequence_stop}
use usb_hid_tool.Race.Service.Request.{first_payload, AnswersTo, request_response-Answered}

abbrev pub Text : Type 0
Text = List ℕ

abbrev pub joined : List Text → Text
joined [] = []
joined (t ∷ ts) = t ++ joined ts

abbrev pub number_of : Text → Option ℤ
number_of (n ∷ []) = some (pos n)
number_of _ = none

abbrev pub is_nothing : Text → Bool
is_nothing [] = true
is_nothing (n ∷ ns) = false

abbrev is_hash : Text → Bool
is_hash (n ∷ ns) = n == b'#'
is_hash [] = false

abbrev pub qt : Qt Text
qt = record {
  cleaned = λ t. t;
  is_empty = is_nothing;
  split = λ t. map (λ n. n ∷ []) t;
  join = joined;
  to_int = number_of;
  two_digits = λ b. b ∷ [];
}

split-joined :
    (bs : Bytes) → map (λ n. n ∷ []) (joined (map (λ n. n ∷ []) bs)) ≡ map (λ n. n ∷ []) bs
split-joined [] = refl
split-joined (b ∷ bs) = ap (λ l. (b ∷ []) ∷ l) (split-joined bs)

qt-Prints : Prints qt
qt-Prints = record {
  clean = λ bs. refl;
  splits = split-joined;
  empty = λ b bs. refl;
  reads = λ b h. refl;
}

parse_hex_string-to_hex_string_example :
    parse_hex_string qt (to_hex_string qt (5 ∷ 0x5A ∷ [])) ≡ parsed (5 ∷ 0x5A ∷ [])
parse_hex_string-to_hex_string_example =
    parse_hex_string-to_hex_string qt qt-Prints 5 (0x5A ∷ []) (ground arith)

parse_hex_string-Reads_example :
    (parse_hex_string qt (5 ∷ 300 ∷ []) ≡ failed empty_command) × (false ≡ true)
    ⊎ Reads qt ((5 ∷ []) ∷ (300 ∷ []) ∷ []) [] (parse_hex_string qt (5 ∷ 300 ∷ []))
parse_hex_string-Reads_example = parse_hex_string-Reads qt (5 ∷ 300 ∷ [])

abbrev lines : Lines Text
lines = record { trimmed = λ t. t; is_blank = is_nothing; is_comment = is_hash }

-- A hidapi that writes whole reports; its world counts them.
abbrev api : Hidapi ℕ ℕ
api = record {
  enumerate = λ w vid pid. ([], w);
  open_path = λ w path. (none, w);
  set_nonblocking = λ w h b. w;
  close = λ w h. w;
  write = λ w h bytes. (pos (length bytes), suc w);
  read = λ w h size. (pos 0, [], w);
  get_input_report = λ w h bytes. (pos (length bytes), bytes, w);
  error = λ w h. none;
}

abbrev cfg : HidReportConfig
cfg = record { out_report_id = 6; in_report_id = 7; report_size = 8 }

abbrev transport : HidTransport ℕ
transport = record {
  device = some 5;
  poll_timer_active = true;
  poll_input_report_id = 0;
  poll_read_buffer_size = 64;
}

abbrev before : RaceService ℕ ℕ
before = record { cfg = cfg; transport = transport; world = 0; log = [] }

abbrev after : RaceService ℕ ℕ
after = record { cfg = cfg; transport = transport; world = 1; log = tx 0x80 (5 ∷ 0x5A ∷ []) ∷ [] }

one_sent : send_single api (5 ∷ 0x5A ∷ []) 0x80 before ≡ done (none, after)
unfolding send_single build_out_report copy_command write_report
one_sent = refl

read_command : parse_hex_string qt (5 ∷ 0x5A ∷ []) ≡ parsed (5 ∷ 0x5A ∷ [])
unfolding parse_hex_string parse_tokens
read_command = refl

abbrev sequence : List Text
sequence = (b'#' ∷ 1 ∷ []) ∷ (5 ∷ 0x5A ∷ []) ∷ []

abbrev sequence-IsReadable : All (IsReadable api qt lines) sequence
sequence-IsReadable = (inl refl, (inr (refl, ((5 ∷ 0x5A ∷ []), read_command)), tt))

send_sequence-Sends_example : send_sequence api qt lines sequence 0x80 before ≡ done (none, after)
send_sequence-Sends_example =
    send_sequence-Sends api qt lines sequence 0x80 before after sequence-IsReadable
      (after, (one_sent, refl))

bad_command : parse_hex_string qt (300 ∷ []) ≡ failed (invalid_byte (300 ∷ []))
unfolding parse_hex_string parse_tokens
bad_command = refl

send_sequence_stop_example :
    send_sequence api qt lines (sequence ++ ((300 ∷ []) ∷ (7 ∷ []) ∷ [])) 0x80 before
    ≡ done (some (parse_failed 3 (invalid_byte (300 ∷ []))), after)
send_sequence_stop_example =
    send_sequence_stop api qt lines sequence ((7 ∷ []) ∷ []) (300 ∷ []) (invalid_byte (300 ∷ []))
      0x80 before after sequence-IsReadable (after, (one_sent, refl)) refl bad_command

abbrev events : List Event
events =
    report (1 ∷ 2 ∷ []) ∷ report (in_report 7 0x80 (5 ∷ 0x5B ∷ []) (0 ∷ 0 ∷ 0 ∷ [])) ∷ timeout ∷ []

-- The payload of the second report is the first that is accepted.
payload_found : first_payload cfg events ≡ some (5 ∷ 0x5B ∷ [])
unfolding parse_in_report
payload_found = refl

-- The report of the request.
abbrev raw : Bytes
raw = 6 ∷ 3 ∷ 0x80 ∷ 5 ∷ 0x5A ∷ 0 ∷ 0 ∷ 0 ∷ []

raw_built : build_out_report (5 ∷ 0x5A ∷ []) 0x80 cfg ≡ done raw
unfolding build_out_report copy_command
raw_built = refl

request_response-Answered_example :
    Returns
      (λ ((r, s') : Response × RaceService ℕ ℕ).
        AnswersTo api (write_report api raw transport 0).error (first_payload cfg events) r)
      (request_response api (5 ∷ 0x5A ∷ []) 0x80 events before)
request_response-Answered_example =
    request_response-Answered api (5 ∷ 0x5A ∷ []) 0x80 raw events before (omega arith) raw_built
