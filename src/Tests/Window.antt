-- ===== src/Tests/Window.antt =====
-- The main window on texts that are lists of numbers, each a word.
use usb_hid_tool.Prelude.{
  ℕ, suc, ◌&&◌, ◌-◌, ◌≡◌, refl, Bool, true, false, List, [], ◌∷◌, ◌++◌, Option, none, some, arith,
  length, map, ◌==◌, if◌then◌else◌, inl, replicate,
}
use usb_hid_tool.Prelude.Int.{pos}
use usb_hid_tool.Run.{Returns}
use usb_hid_tool.Race.Packet.{
  Bytes, HidReportConfig, build_out_report, copy_command, parse_in_report,
}
use usb_hid_tool.Race.Packet.Parse.{in_report}
use usb_hid_tool.Race.Transport.{Hidapi, HidTransport, is_open, write_report}
use usb_hid_tool.Race.Command.{parse_hex_string, parse_tokens}
use usb_hid_tool.Race.Service.{
  RaceService, Event, report, timeout, event_loop, on_hid_report_received, request_response,
  send_single,
}
use usb_hid_tool.Race.Service.Request.{first_payload}
use usb_hid_tool.Race.Serial.{
  judge, write_command, Template, WriteError, build_cmd_from_template, write_serial_by_template,
  Wrote, write_serial_by_template-Wrote,
}
use usb_hid_tool.Race.Transport.Lifecycle.{created}
use usb_hid_tool.Tests.Service.{Text, joined, number_of, is_nothing, qt}
use usb_hid_tool.MainWindow.Settings.{
  SerialText, SnModeSettings, Form, validate_serial_range, build_serial_string,
}
use usb_hid_tool.MainWindow.SettingsFile.{
  JsonValue, other, Json, missing, settings, save_to_file, load_from_file,
}
use usb_hid_tool.MainWindow.SettingsFile.RoundTrip.{load_from_file-save_to_file}
use usb_hid_tool.MainWindow.Mac.{
  MacText, MacResult, read_mac_address, request_mac, mac_of_answer, mac_of_response, mac_parts,
}
use usb_hid_tool.MainWindow.Mac.Answer.{IsMacOf, read_mac_address-IsMacOf}
use usb_hid_tool.MainWindow.Csv.{
  CsvText, CsvFile, FileSystem, append_csv_record, is_duplicate_record, current_csv_file_path,
  csv_index_from, find_file, has_duplicate_line, is_duplicate_row,
}
use usb_hid_tool.MainWindow.Csv.Appends.{CsvRecord, appended_records}
use usb_hid_tool.MainWindow.Csv.Duplicates.{IsPlain, append_csv_record-is_duplicate_record}
use usb_hid_tool.MainWindow.Print.{PrintText}
use usb_hid_tool.MainWindow.Write.{
  WindowText, MainWindow, Now, WriteOutcome, sn_written, write_current_serial_once, after_mac,
  after_write, recorded, write_built, write_in_range, write_text,
}
use usb_hid_tool.MainWindow.Write.Once.{TellsOnce, write_current_serial_once-TellsOnce}
use usb_hid_tool.MainWindow.AutoSn.{auto_sn_ticks}
use usb_hid_tool.MainWindow.AutoSn.Ticks.{OncePerDevice, auto_sn_ticks-OncePerDevice}
use usb_hid_tool.Race.Response.{check_race_general_success}

abbrev same_text : Text → Text → Bool
same_text [] [] = true
same_text (m ∷ ms) (n ∷ ns) = (m == n) && same_text ms ns
same_text [] (n ∷ ns) = false
same_text (m ∷ ms) [] = false

abbrev words : Text → List Text
words t = map (λ n. n ∷ []) t

abbrev number : Text → Option ℕ
number (n ∷ []) = some n
number _ = none

abbrev put_in : ℕ → Text → Text → Text
put_in mark new [] = []
put_in mark new (n ∷ ns) = if n == mark then new ++ put_in mark new ns else n ∷ put_in mark new ns

abbrev replaced : Text → Text → Text → Text
replaced t (mark ∷ _) new = put_in mark new t
replaced t [] new = t

-- The marks of a template are the words 1000 and 1001.
abbrev template : Template Text
template = record {
  replace = replaced;
  serial_ascii = 1000 ∷ [];
  serial_hex = 1001 ∷ [];
  hex_of = λ t. t;
}

abbrev mac_text : MacText Text
mac_text = record { command = (5 ∷ 0x5A ∷ 3 ∷ 0 ∷ 0xD5 ∷ 0xC ∷ 0 ∷ []); join_colon = joined }

abbrev serial_text : SerialText Text
serial_text = record {
  padded = λ value width. value ∷ [];
  size = length;
  is_empty = is_nothing;
  trimmed = λ t. t;
  append = λ s t. s ++ t;
  to_u_long_long = number;
  to_int = number_of;
}

abbrev csv_text : CsvText Text
csv_text = record {
  trimmed = λ t. t;
  is_empty = is_nothing;
  split = words;
  row = joined;
  safe = λ t. t;
  same_letters = same_text;
  same = same_text;
  header = (2000 ∷ []);
  is_header = λ t. false;
  ok = 1 ∷ [];
}

same_text_refl : (t : Text) → same_text t t ≡ true
same_text_refl [] = refl
same_text_refl (n ∷ ns) = rw (same_text_refl ns) (ground arith)

abbrev IsWord : Text → Type 0
IsWord t = (n : ℕ) × (t ≡ n ∷ [])

csv_text-IsPlain : IsPlain csv_text IsWord
csv_text-IsPlain = record {
  split_row = λ a b c d e fa fb fc fd fe. rw (fa.1, fb.1, fc.1, fd.1, fe.1) refl;
  row_not_empty = λ a b c d e fa fb fc fd fe. rw (fa.1) refl;
  trimmed_field = λ a f. refl;
  safe_field = λ a f. refl;
  ok_field = (1, refl);
  same_refl = same_text_refl;
}

abbrev fs : FileSystem Text
fs = record { can_read = λ name. true; can_append = λ name. true; size = λ file. 100 }

-- A file of the day, with the record of another device.
abbrev csv_files : List (CsvFile Text)
csv_files =
    record { name = record { day = 20; idx = 1 }; content = (9 ∷ 7 ∷ 8 ∷ 1 ∷ 2 ∷ []) ∷ [] } ∷ []

appended :
    (append_csv_record fs csv_text 20 (9 ∷ []) (5 ∷ []) (6 ∷ []) (1 ∷ []) (2 ∷ []) csv_files).0
    ≡ true
unfolding append_csv_record current_csv_file_path csv_index_from find_file
appended = refl

abbrev later : List (CsvRecord Text)
later =
    record {
      day = 21;
      time = 9 ∷ [];
      mac = 10 ∷ [];
      serial = 11 ∷ [];
      burn = 1 ∷ [];
      print = 2 ∷ [];
    }
    ∷ []

append_csv_record-is_duplicate_record_example :
    is_duplicate_record fs csv_text (5 ∷ []) (77 ∷ []) (
      appended_records fs csv_text later
        (append_csv_record fs csv_text 20 (9 ∷ []) (5 ∷ []) (6 ∷ []) (1 ∷ []) (2 ∷ []) csv_files).1)
    ≡ true
append_csv_record-is_duplicate_record_example =
    append_csv_record-is_duplicate_record csv_text IsWord csv_text-IsPlain fs 20 csv_files (9 ∷ [])
      (5 ∷ []) (6 ∷ []) (2 ∷ []) (5 ∷ []) (77 ∷ []) later (9, refl) (5, refl) (6, refl) (2, refl)
      refl refl appended (inl refl)

-- A hidapi with one device, of the ids 1 and 2; its world counts the reports that are written.
abbrev api : Hidapi ℕ ℕ
api = record {
  enumerate = λ w vid pid.
      (record { vendor_id = 1; product_id = 2; usage_page = 0xFF13; path = 47 ∷ [] } ∷ [], w);
  open_path = λ w path. (some 5, w);
  set_nonblocking = λ w h b. w;
  close = λ w h. w;
  write = λ w h bytes. (pos (length bytes), suc w);
  read = λ w h size. (pos 0, [], w);
  get_input_report = λ w h bytes. (pos (length bytes), bytes, w);
  error = λ w h. none;
}

abbrev cfg : HidReportConfig
cfg = record { out_report_id = 6; in_report_id = 7; report_size = 24 }

abbrev transport : HidTransport ℕ
transport = record {
  device = some 5;
  poll_timer_active = true;
  poll_input_report_id = 0;
  poll_read_buffer_size = 64;
}

abbrev service : RaceService ℕ ℕ
service = record { cfg = cfg; transport = transport; world = 0; log = [] }

-- The response with the MAC address 06:05:04:03:02:01, and the one that confirms a write.
abbrev mac_response : Bytes
mac_response = 5 ∷ 0x5B ∷ 10 ∷ 0 ∷ 0xD5 ∷ 0xC ∷ 0 ∷ 0 ∷ 1 ∷ 2 ∷ 3 ∷ 4 ∷ 5 ∷ 6 ∷ []

abbrev write_response : Bytes
write_response = 5 ∷ 0x5B ∷ 3 ∷ 0 ∷ 0xD6 ∷ 0xC ∷ 0 ∷ []

abbrev heard : Bytes → List Event
heard payload = report (in_report 7 0x80 payload (replicate (21 - length payload) 0)) ∷ timeout ∷ []

abbrev sn_template : Text
sn_template = (5 ∷ 0x5A ∷ 4 ∷ 0 ∷ 0xD6 ∷ 0xC ∷ 1001 ∷ [])

read_mac_address-IsMacOf_example :
    Returns
      (λ ((r, s') : MacResult Text × RaceService ℕ ℕ).
        IsMacOf qt mac_text
          (parse_hex_string qt mac_text.command)
          (first_payload cfg (heard mac_response))
          r)
      (read_mac_address qt mac_text api 0x80 (heard mac_response) service)
read_mac_address-IsMacOf_example =
    read_mac_address-IsMacOf qt mac_text api 0x80 (heard mac_response) service (omega arith)

write_serial_by_template-Wrote_example :
    Returns
      (λ ((r, s') : Option (WriteError Text) × RaceService ℕ ℕ).
        Wrote qt template api
          (build_cmd_from_template qt template sn_template (6 ∷ []))
          (first_payload cfg (heard write_response))
          r)
      (write_serial_by_template qt template api sn_template
        (6 ∷ [])
        0x80
        (heard write_response)
        service)
write_serial_by_template-Wrote_example =
    write_serial_by_template-Wrote qt template api sn_template (6 ∷ []) 0x80 (heard write_response)
      service (omega arith)

abbrev print_text : PrintText Text
print_text = record {
  replace = replaced;
  serial_mark = 1002 ∷ [];
  mac_mark = 1003 ∷ [];
  to_utf8 = λ t. t;
}

abbrev window_text : WindowText Text
window_text = record {
  qt = qt;
  serial = serial_text;
  template = template;
  mac = mac_text;
  csv = csv_text;
  print = print_text;
  no_mac = 45 ∷ [];
  mac_read_fail = 3 ∷ [];
  duplicate_skip = 4 ∷ [];
  write_fail = 5 ∷ [];
  not_run = 2 ∷ [];
  fail = 6 ∷ [];
}

abbrev sn_mode : SnModeSettings Text
sn_mode = record {
  sn_prefix = [];
  sn_start = 6 ∷ [];
  sn_width = 1 ∷ [];
  sn_poll_ms = 500 ∷ [];
  sn_template = sn_template;
  use_plant = false;
  use_manufacturer = false;
  use_product = false;
  use_month = false;
  use_year = false;
  prevent_duplicate = true;
  enable_print = false;
  plant_code = [];
  manufacturer_code = [];
  product_code = [];
  month_code = [];
  year_code = [];
  printer_ip = [];
  printer_port = [];
  print_template = [];
}

abbrev window : MainWindow Text ℕ ℕ
window = record {
  service = service;
  cfg = cfg;
  next_serial = 1;
  auto_sn_armed = false;
  auto_sn_timer = some 500;
  csv = csv_files;
}

abbrev now : Now Text
now = record {
  target = 0x80;
  mac_events = heard mac_response;
  write_events = heard write_response;
  day = 20;
  time = 9 ∷ [];
  network = record { connects = λ ip port. false; sends = λ bytes. false };
}

-- The number 6, which the settings start from, is written, and 7 is next.
six_written :
    Returns
      (λ ((o, w') : WriteOutcome Text × MainWindow Text ℕ ℕ).
        (o ≡ sn_written (6 ∷ []) (6 ∷ 5 ∷ 4 ∷ 3 ∷ 2 ∷ 1 ∷ [])) × (w'.next_serial ≡ 7))
      (write_current_serial_once api window_text fs sn_mode now window)
unfolding write_current_serial_once validate_serial_range write_in_range build_serial_string
    write_built write_text read_mac_address request_mac parse_hex_string parse_tokens
    request_response send_single build_out_report copy_command write_report event_loop
    on_hid_report_received parse_in_report mac_of_answer mac_of_response mac_parts after_mac
    is_duplicate_record has_duplicate_line is_duplicate_row write_serial_by_template
    build_cmd_from_template write_command judge check_race_general_success after_write recorded
six_written = (refl, refl)

write_current_serial_once-TellsOnce_example :
    Returns
      (TellsOnce api window_text fs sn_mode now window)
      (write_current_serial_once api window_text fs sn_mode now window)
write_current_serial_once-TellsOnce_example =
    write_current_serial_once-TellsOnce api window_text fs sn_mode now window (omega arith)

abbrev form : Form
form = record {
  vid = some 1;
  pid = some 2;
  out_report_id = some 6;
  in_report_id = some 7;
  current_target = 0x80;
}

abbrev closed_window : MainWindow Text ℕ ℕ
closed_window = record window { service = record service { transport = created } }

closed : is_open (created {H = ℕ}) ≡ false
unfolding is_open
closed = refl

-- Two ticks with the device, of which the first writes.
auto_sn_ticks-OncePerDevice_example :
    Returns
      (OncePerDevice api window_text fs sn_mode closed_window)
      (auto_sn_ticks api window_text fs sn_mode ((form, now) ∷ (form, now) ∷ []) closed_window)
auto_sn_ticks-OncePerDevice_example =
    auto_sn_ticks-OncePerDevice api window_text fs sn_mode ((form, now) ∷ (form, now) ∷ [])
      closed_window closed (omega arith)

-- Objects that are functions, and files that are objects.
abbrev json : Json Text (ℕ → JsonValue Text) (ℕ → JsonValue Text)
json = record {
  no_members = λ k. other;
  insert = λ o k v. λ k'. if k == k' then v else o k';
  value = λ o k. o k;
  to_json = λ o. o;
  from_json = λ o. some o;
}

load_from_file-save_to_file_example :
    ((save_to_file json true true sn_mode missing).0 ≡ true)
    × (load_from_file json sn_mode (save_to_file json true true sn_mode missing).1
        ≡ settings sn_mode)
load_from_file-save_to_file_example =
    load_from_file-save_to_file json true true sn_mode sn_mode missing
      (record { value_insert = λ o k k' v. refl; from_json-to_json = λ o. refl })
