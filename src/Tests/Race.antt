-- ===== src/Tests/Race.antt =====
-- The tool's core on the default report layout.
use usb_hid_tool.Prelude.{ℕ, suc, ◌-◌, ◌≡◌, refl, List, [], ◌∷◌, ◌++◌, none, some, arith, length}
use usb_hid_tool.Prelude.Int.{pos}
use usb_hid_tool.Run.{done, ◌>>=◌, Returns}
use usb_hid_tool.Race.Packet.{
  HidReportConfig, build_out_report, parse_in_report, accepted, Bytes, copy_command,
}
use usb_hid_tool.Race.Packet.Build.{build_out_report-layout}
use usb_hid_tool.Race.Packet.Parse.{in_report, Describes, parse_in_report-Describes}
use usb_hid_tool.Race.Packet.RoundTrip.{parse_in_report-build_out_report}
use usb_hid_tool.Race.Response.{
  check_race_general_success, Tells, check_race_general_success-Tells, success,
}
use usb_hid_tool.Race.Transport.{DeviceInfo, Hidapi, pick_device_path}
use usb_hid_tool.Race.Transport.Path.{pick_device_path-preferred}
use usb_hid_tool.Race.Transport.Lifecycle.{
  Call, opening, polling, writing, configuring, Counts, calls, created, Accounted,
  created-Accounted,
}

-- A command of type 0x5A, its response, and small reports.
abbrev command : Bytes
command = 0x05 ∷ 0x5A ∷ 0x02 ∷ 0x00 ∷ 0x00 ∷ 0x0C ∷ []

abbrev response : Bytes
response = 0x05 ∷ 0x5B ∷ 0x03 ∷ 0x00 ∷ 0x00 ∷ 0x0C ∷ 0x00 ∷ []

abbrev small : HidReportConfig
small = record { out_report_id = 6; in_report_id = 7; report_size = 12 }

abbrev same_ids : HidReportConfig
same_ids = record { out_report_id = 6; in_report_id = 6; report_size = 12 }

-- The report of a command, whole.
sent_command :
    build_out_report command 0x80 small
    ≡ done (6 ∷ 7 ∷ 0x80 ∷ 0x05 ∷ 0x5A ∷ 0x02 ∷ 0x00 ∷ 0x00 ∷ 0x0C ∷ 0 ∷ 0 ∷ 0 ∷ [])
unfolding build_out_report copy_command
sent_command = refl

build_out_report-layout_example :
    build_out_report command 0x80 small
    ≡ done (6 ∷ 7 ∷ 0x80 ∷ 0x05 ∷ 0x5A ∷ 0x02 ∷ 0x00 ∷ 0x00 ∷ 0x0C ∷ 0 ∷ 0 ∷ 0 ∷ [])
build_out_report-layout_example = build_out_report-layout command 0x80 small (omega arith)

parse_in_report-Describes_example :
    Returns
      (Describes small (in_report 7 0x80 response (0 ∷ 0 ∷ [])))
      (parse_in_report (in_report 7 0x80 response (0 ∷ 0 ∷ [])) small)
parse_in_report-Describes_example =
    parse_in_report-Describes (in_report 7 0x80 response (0 ∷ 0 ∷ [])) small (omega arith)

parse_in_report-build_out_report_example :
    (build_out_report command 0x80 same_ids >>= λ raw. parse_in_report raw same_ids)
    ≡ done (accepted (command ++ (0 ∷ [])) 0x80)
parse_in_report-build_out_report_example =
    parse_in_report-build_out_report command 0x80 same_ids refl (omega arith) (omega arith)

-- The check accepts the response.
response_accepted : check_race_general_success command response ≡ done success
unfolding check_race_general_success
response_accepted = refl

check_race_general_success-Tells_example :
    Returns (Tells command response) (check_race_general_success command response)
check_race_general_success-Tells_example = check_race_general_success-Tells command response

abbrev mouse : DeviceInfo
mouse = record { vendor_id = 0x0E8D; product_id = 0x0001; usage_page = 1; path = b'a' ∷ [] }

abbrev race_interface : DeviceInfo
race_interface = record {
  vendor_id = 0x0E8D;
  product_id = 0x0001;
  usage_page = 0xFF13;
  path = b'b' ∷ [];
}

-- A hidapi with one device of two interfaces, whose world is the number of open handles.
abbrev one_device : Hidapi ℕ ℕ
one_device = record {
  enumerate = λ w vid pid. (mouse ∷ race_interface ∷ [], w);
  open_path = λ w path. (some 5, suc w);
  set_nonblocking = λ w h b. w;
  close = λ w h. w - 1;
  write = λ w h bytes. (pos (length bytes), w);
  read = λ w h size. (pos 0, [], w);
  get_input_report = λ w h bytes. (pos (length bytes), bytes, w);
  error = λ w h. none;
}

pick_device_path-preferred_example : pick_device_path one_device 0x0E8D 0x0001 0 ≡ (b'b' ∷ [], 0)
pick_device_path-preferred_example = pick_device_path-preferred one_device 0x0E8D 0x0001 0

abbrev one_device-Counts : Counts one_device (λ w. w)
one_device-Counts = record {
  on_enumerate = λ w vid pid. refl;
  on_open_path = λ w path. refl;
  on_set_nonblocking = λ w h b. refl;
  on_close = λ w h. refl;
  on_write = λ w h bytes. refl;
  on_read = λ w h size. refl;
  on_get_input_report = λ w h bytes. refl;
}

abbrev session : List Call
session =
    configuring 7 62
    ∷ opening 0x0E8D 0x0001
    ∷ writing (6 ∷ 2 ∷ 0 ∷ [])
    ∷ polling
    ∷ opening 0x0E8D 0x0001
    ∷ []

created-Accounted_example :
    Accounted one_device
      (λ w. w)
      one_device-Counts
      0
      (calls one_device session created 0).0
      (calls one_device session created 0).1
created-Accounted_example = created-Accounted one_device (λ w. w) one_device-Counts session 0
