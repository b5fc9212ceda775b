-- ===== src/Linux/DeviceInfo.antt =====
pub mod Copies
pub mod Total
-- `create_device_info_for_device` of hidapi/linux/hid.c: the records of one hidraw node.
-- What udev says of the node is a record of facts; a sysfs attribute is a text or missing (NULL).
-- `mbstowcs` of the current locale is a parameter: the wide text, or `none` for an invalid sequence.
use usb_hid_tool.Prelude.{
  ℕ, zero, suc, ◌+◌, ◌-◌, ◌%◌, ◌^◌, min, Bool, true, false, List, [], ◌∷◌, Option, none, some, ltb,
  ◌==◌, if◌then◌else◌, length,
}
use usb_hid_tool.Prelude.Int.{ℤ, pos, negsuc, minus_one}
use usb_hid_tool.Run.{Run, done, spent, ◌>>=◌}
use usb_hid_tool.Linux.Descriptor.{Scan, Verdict, pair, finished, malformed, get_next_hid_usage}
use usb_hid_tool.Linux.Uevent.{Bytes, prefixed, skip_space, Ids, Info, parse_uevent_info}

abbrev pub Wide : Type 0
Wide = List ℕ

-- `hid_bus_type`
pub data Bus : Type 0 where
  unknown usb bluetooth i2c spi virtual : Bus

-- One `struct hid_device_info`, its `next` left to the list.
pub record DeviceInfo : Type 0 where
  pub path : Option Bytes
  pub vendor_id : ℕ
  pub product_id : ℕ
  pub serial_number : Option Wide
  pub release_number : ℕ
  pub manufacturer_string : Option Wide
  pub product_string : Option Wide
  pub usage_page : ℕ
  pub usage : ℕ
  pub interface_number : ℤ
  pub bus_type : Bus

-- The parent with devtype "usb_device".
pub record UsbDevice : Type 0 where
  pub manufacturer : Option Bytes
  pub product : Option Bytes
  pub bcd_device : Option Bytes

-- A hidraw node: the `uevent` of its HID parent, if it has that parent; its USB parents (the
-- interface is its `bInterfaceNumber`); the report descriptor that sysfs holds, if it can be read.
pub record Node : Type 0 where
  pub devnode : Option Bytes
  pub hid_uevent : Option (Option Bytes)
  pub usb_device : Option UsbDevice
  pub usb_interface : Option (Option Bytes)
  pub report_descriptor : Option Bytes

-- `strtol(s, NULL, 16)` on the magnitude and its sign; the result stops at the ends of `long`.
abbrev magnitude : Bool → Option (ℕ × Bytes) → ℤ
magnitude minus none = pos 0
magnitude false (some (v, _)) = pos (min v (2 ^ 63 - 1))
magnitude true (some (zero, _)) = pos 0
magnitude true (some (suc v, _)) = negsuc (min v (2 ^ 63 - 1))

unfoldable pub signed_text : Bytes → ℤ
signed_text [] = pos 0
signed_text (c ∷ cs) =
    if c == b'-'
    then magnitude true (prefixed cs)
    else if c == b'+'
    then magnitude false (prefixed cs)
    else magnitude false (prefixed (c ∷ cs))

unfoldable pub strtol_hex : Bytes → ℤ
strtol_hex s = signed_text (skip_space s)

-- The low `w` bits.
abbrev low_bits : ℕ → ℤ → ℕ
low_bits w (pos n) = n % 2 ^ w
low_bits w (negsuc n) = 2 ^ w - 1 - n % 2 ^ w

-- Conversion to `int`.
abbrev pub to_int : ℤ → ℤ
to_int z = let n = low_bits 32 z in if ltb n (2 ^ 31) then pos n else negsuc (2 ^ 32 - 1 - n)

-- The switch on `bus_type` that lets handled devices through.
unfoldable pub bus_of : ℕ → Option Bus
bus_of b =
    if b == 0x05
    then some bluetooth
    else if b == 0x18
    then some i2c
    else if b == 0x03
    then some usb
    else if b == 0x1c
    then some spi
    else if b == 0x06
    then some virtual
    else none

abbrev pub with_usage : DeviceInfo → Scan → DeviceInfo
with_usage d s = record d { usage_page = s.usage_page; usage = s.usage }

-- The loop over further pairs: each makes a copy of the record before it.
unfoldable pub more_infos : ℕ → Bytes → DeviceInfo → Scan → Run (List DeviceInfo)
more_infos zero rpt prev s = spent
more_infos (suc fuel) rpt prev s = do
  r ← get_next_hid_usage (suc fuel) rpt (length rpt) s
  elim r.0 [
    | pair ↦ (do
      rest ← more_infos fuel rpt (with_usage prev r.1) r.1
      done (with_usage prev r.1 ∷ rest))
    | _ ↦ done []
  ]

abbrev pub first_scan : Scan
first_scan = record {
  at = 0;
  usage_page_found = false;
  usage_page = 0;
  usage_found = false;
  usage = 0;
}

abbrev pub if_pair : Verdict → DeviceInfo → DeviceInfo → DeviceInfo
if_pair pair d e = d
if_pair _ d e = e

-- From "Usage Page and Usage" on: the first pair goes into the record itself.
unfoldable pub usage_infos : ℕ → Option Bytes → DeviceInfo → Run (List DeviceInfo)
usage_infos fuel none d = done (d ∷ [])
usage_infos fuel (some rpt) d = do
  r ← get_next_hid_usage fuel rpt (length rpt) first_scan
  let d' : DeviceInfo = if_pair r.0 (with_usage d r.1) d
  rest ← more_infos fuel rpt d' r.1
  done (d' ∷ rest)

abbrev pub no_ids : Ids
no_ids = record { bus_type = 0; vendor_id = 0; product_id = 0 }

module _ (mbstowcs : Bytes → Option Wide) where
  unfoldable pub utf8_to_wchar_t : Option Bytes → Option Wide
  utf8_to_wchar_t none = none
  utf8_to_wchar_t (some s) = elim (mbstowcs s) [ none ↦ some [] | some w ↦ some w ]

  -- The record before the bus is looked at.
  unfoldable pub blank_info : Node → Info → DeviceInfo
  blank_info node i = record {
    path = node.devnode;
    vendor_id = i.ids.vendor_id;
    product_id = i.ids.product_id;
    serial_number = utf8_to_wchar_t i.serial_number;
    release_number = 0;
    manufacturer_string = none;
    product_string = none;
    usage_page = 0;
    usage = 0;
    interface_number = minus_one;
    bus_type = unknown;
  }

  -- A uhid device has no USB parent, and its bus stays unknown.
  unfoldable pub usb_info : Node → Info → DeviceInfo → DeviceInfo
  usb_info node i d = elim node.usb_device [
    | none ↦ record d {
      manufacturer_string = some [];
      product_string = utf8_to_wchar_t i.product_name;
    }
    | some u ↦ record d {
      manufacturer_string = utf8_to_wchar_t u.manufacturer;
      product_string = utf8_to_wchar_t u.product;
      bus_type = usb;
      release_number = elim u.bcd_device [ none ↦ 0 | some s ↦ low_bits 16 (strtol_hex s) ];
      interface_number = elim node.usb_interface [
        | none ↦ d.interface_number
        | some none ↦ minus_one
        | some (some s) ↦ to_int (strtol_hex s)
      ];
    }
  ]

  -- The second switch on `bus_type`.
  unfoldable pub bus_info : Bus → Node → Info → DeviceInfo → DeviceInfo
  bus_info usb node i d = usb_info node i d
  bus_info b node i d = record d {
    manufacturer_string = some [];
    product_string = utf8_to_wchar_t i.product_name;
    bus_type = b;
  }

  -- The empty list is NULL.
  unfoldable pub infos_of_info : ℕ → Node → Info → Run (List DeviceInfo)
  infos_of_info fuel node i = elim (bus_of i.ids.bus_type) [
    | none ↦ done []
    | some b ↦ usage_infos fuel node.report_descriptor (bus_info b node i (blank_info node i))
  ]

  unfoldable pub create_device_info_for_device : ℕ → Node → Run (List DeviceInfo)
  create_device_info_for_device fuel node = elim node.hid_uevent [
    | none ↦ done []
    | some uevent ↦
        let (i, whole) = parse_uevent_info uevent no_ids in
        if whole then infos_of_info fuel node i else done []
  ]
