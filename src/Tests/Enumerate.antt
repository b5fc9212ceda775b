-- ===== src/Tests/Enumerate.antt =====
-- The search for devices, strings and opening on a Windows system with one USB device.
use usb_hid_tool.Prelude.{ℕ, true, false, [], ◌∷◌, ◌++◌, none, some, List, replicate, if◌then◌else◌}
use usb_hid_tool.Prelude.Int.{minus_one}
use usb_hid_tool.Run.{Returns}
use usb_hid_tool.Windows.DevNode.{Wide, usb, DeviceInfo, Property, Windows}
use usb_hid_tool.Windows.State.{State}
use usb_hid_tool.Windows.Enumerate.{too_small, listed, hid_enumerate, hid_open}
use usb_hid_tool.Windows.Enumerate.Listing.{IsListing, hid_enumerate-IsListing}
use usb_hid_tool.Windows.Enumerate.Open.{IsOpen, hid_open-IsOpen}
use usb_hid_tool.Windows.Enumerate.Balance.{IsBalanced, hid_open-IsBalanced}
use usb_hid_tool.Windows.Strings.{
  Device, hid_get_manufacturer_string, hid_get_product_string, hid_get_serial_number_string,
}
use usb_hid_tool.Windows.Strings.Contract.{IsReported, IsCopy, string_functions-IsReported}

-- It opens without access only, and its strings are those of the device.
abbrev system : Windows
system = record {
  wide_char_to_multi_byte = λ w. some w;
  multi_byte_to_wide_char = λ b. some b;
  towupper = λ c. c;
  create_file = λ path rw. if rw then none else some 7;
  get_attributes = λ handle. some (record { vendor_id = 5; product_id = 6; version_number = 1 });
  get_preparsed_data = λ handle. some 9;
  get_caps = λ pp. some (record {
    usage_page = 0xff00;
    usage = 1;
    input_report_byte_length = 62;
    output_report_byte_length = 62;
    feature_report_byte_length = 0;
  });
  set_num_input_buffers = λ handle. true;
  get_serial_number_string = λ handle size. b'4' ∷ b'2' ∷ [];
  get_manufacturer_string = λ handle size. b'M' ∷ [];
  get_product_string = λ handle size. b'P' ∷ [];
  device_interface_property = λ path key. missing;
  devnode_text = λ node key. missing;
  devnode_texts = λ node key. record { buffer_small = false; expected_type = false; value = none };
  locate_devnode = λ id. none;
  get_parent = λ node. none;
}
  where
    missing : Property (List ℕ)
    missing = record { buffer_small = false; expected_type = false; value = none }

abbrev start : State
start = record { open_handles = 0; open_events = 0; open_preparsed = 0; global_error = none }

abbrev fresh : ℕ → List ℕ
fresh n = replicate n 0

abbrev path : Wide
path = b'd' ∷ []

hid_enumerate-IsListing_example :
    Returns
      (IsListing system 5 0 (path ∷ []) start)
      (hid_enumerate system true (replicate 1 too_small ++ (listed (path ∷ []) ∷ [])) 5 0 start)
hid_enumerate-IsListing_example = hid_enumerate-IsListing system 5 0 1 (path ∷ []) [] start

hid_open-IsOpen_example :
    Returns (IsOpen system fresh 5 6 (some (b'4' ∷ b'2' ∷ [])) (path ∷ []) start) (
      hid_open system fresh true
        (replicate 0 too_small ++ (listed (path ∷ []) ∷ []))
        5
        6
        (some (b'4' ∷ b'2' ∷ []))
        start)
hid_open-IsOpen_example =
    hid_open-IsOpen system fresh 5 6 0 (some (b'4' ∷ b'2' ∷ [])) (path ∷ []) [] start

hid_open-IsBalanced_example :
    Returns
      (IsBalanced system start)
      (hid_open system fresh true (listed (path ∷ []) ∷ []) 5 6 none start)
hid_open-IsBalanced_example =
    hid_open-IsBalanced system fresh true (listed (path ∷ []) ∷ []) 5 6 none start tt

abbrev info : DeviceInfo
info = record {
  path = some path;
  vendor_id = 5;
  product_id = 6;
  serial_number = b'4' ∷ b'2' ∷ [];
  release_number = 1;
  manufacturer_string = b'M' ∷ [];
  product_string = b'P' ∷ [];
  usage_page = 0xff00;
  usage = 1;
  interface_number = minus_one;
  bus_type = usb;
}

abbrev dev : Device
dev = record { device_handle = 7; device_info = some info; last_error = none }

string_functions-IsReported_example :
    IsReported
      (IsCopy (λ (d : DeviceInfo). d.manufacturer_string) dev 2)
      dev
      (hid_get_manufacturer_string dev true 2)
    × IsReported
        (IsCopy (λ (d : DeviceInfo). d.product_string) dev 2)
        dev
        (hid_get_product_string dev true 2)
    × IsReported
        (IsCopy (λ (d : DeviceInfo). d.serial_number) dev 2)
        dev
        (hid_get_serial_number_string dev true 2)
string_functions-IsReported_example = string_functions-IsReported dev true 2
