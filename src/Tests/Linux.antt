-- ===== src/Tests/Linux.antt =====
-- The hidraw backend on a small kernel and a device that the system lists.
use usb_hid_tool.Prelude.{
  inr, ℕ, ◌≡◌, ◌<◌, ◌≤◌, true, false, List, [], ◌∷◌, Option, none, some, arith, length, length-take,
  take,
}
use usb_hid_tool.Prelude.Int.{pos}
use usb_hid_tool.Run.{done, Returns}
use usb_hid_tool.Linux.Descriptor.{Scan, pair, get_next_hid_usage}
use usb_hid_tool.Linux.Descriptor.Progress.{IsDescriptor}
use usb_hid_tool.Linux.Descriptor.Usage.{get_next_hid_usage_progress}
use usb_hid_tool.Linux.Uevent.{equal, parse_uevent_info}
use usb_hid_tool.Linux.Uevent.Print.{Printed}
use usb_hid_tool.Linux.Uevent.Lines.{Uevent, IsUevent, text, info_of, parse_uevent_info-text}
use usb_hid_tool.Linux.Device.{
  Bytes, Device, new_hid_device, failed, returned, Kernel, hid_read_timeout,
}
use usb_hid_tool.Linux.Device.Contract.{ReadFits, Outcome, hid_read_timeout-Outcome}
use usb_hid_tool.Linux.DeviceInfo.{DeviceInfo, usb, Node, create_device_info_for_device, no_ids}
use usb_hid_tool.Linux.DeviceInfo.Copies.{Alike}
use usb_hid_tool.Linux.DeviceInfo.Total.{create_device_info_for_device-Alike}
use usb_hid_tool.Linux.Enumerate.Open.{hid_open-requested_path}
use usb_hid_tool.Linux.Enumerate.{hid_open_path, opened, hid_open, Entry, holds}

-- A kernel whose world is the queue of input reports.
abbrev kernel : Kernel (List Bytes)
kernel = record {
  write = λ w fd bytes. (returned (length bytes), w);
  read = λ w fd size. elim w [ [] ↦ (failed 11, []) | r ∷ rs ↦ (returned (take size r), rs) ];
  poll = λ w fd ms. elim w [ [] ↦ (returned none, []) | r ∷ rs ↦ (returned (some 1), r ∷ rs) ];
  ioctl = λ w fd q buf. (returned (length buf, buf), w);
}

abbrev kernel-ReadFits : ReadFits kernel
kernel-ReadFits = fits
  where
    fits : ReadFits kernel
    fits [] fd size = omega arith
    fits (r ∷ rs) fd size = omega (arith, length-take size r)

abbrev dev : Device
dev = new_hid_device 3

hid_read_timeout-Outcome_example :
    Outcome kernel kernel-ReadFits dev 2
      (hid_read_timeout kernel dev true 2 (pos 20) ((7 ∷ 8 ∷ 9 ∷ []) ∷ []))
hid_read_timeout-Outcome_example =
    hid_read_timeout-Outcome kernel kernel-ReadFits dev true 2 (pos 20) ((7 ∷ 8 ∷ 9 ∷ []) ∷ [])

-- A report descriptor with a usage page, a usage and an application collection.
abbrev descriptor : Bytes
descriptor =
    0x06 ∷ 0x13 ∷ 0xFF ∷ 0x09 ∷ 0x01 ∷ 0xA1 ∷ 0x01 ∷ 0x85 ∷ 0x06 ∷ 0x95 ∷ 0x3D ∷ 0x91 ∷ 0x02 ∷ 0xC0
    ∷ []

descriptor-IsDescriptor : IsDescriptor descriptor (length descriptor)
descriptor-IsDescriptor = record { bytes = ground arith; held = omega arith; small = omega arith }

abbrev begin : Scan
begin = record { at = 0; usage_page_found = false; usage_page = 0; usage_found = false; usage = 0 }

get_next_hid_usage_progress_example :
    Returns
      (λ (v, s').
        (0 ≤ s'.at) × (v ≡ pair → 0 < s'.at) × (s'.usage_page < 65536) × (s'.usage < 65536))
      (get_next_hid_usage 20 descriptor (length descriptor) begin)
get_next_hid_usage_progress_example =
    get_next_hid_usage_progress descriptor (length descriptor) descriptor-IsDescriptor 20 begin
      (omega arith) (omega arith) (omega arith) (omega arith)

abbrev digits : ℕ → List ℕ → Printed
digits d ds = record { lead = d; tail = ds }

-- D=x, HID_ID=03:E8D:1, HID_NAME=Hi, HID_PHYS=p, HID_UNIQ=S
abbrev uevent : Uevent
uevent = record {
  before = record { key = b'D' ∷ []; val = b'x' ∷ [] } ∷ [];
  bus = digits 0 (3 ∷ []);
  vendor = digits 0xE (8 ∷ 0xD ∷ []);
  product = digits 1 [];
  behind_id = [];
  name = b'H' ∷ b'i' ∷ [];
  behind_name =
      record { key = b'H' ∷ b'I' ∷ b'D' ∷ b'_' ∷ b'P' ∷ b'H' ∷ b'Y' ∷ b'S' ∷ []; val = b'p' ∷ [] }
      ∷ [];
  serial = b'S' ∷ [];
  after = [];
}

uevent-IsUevent : IsUevent uevent
uevent-IsUevent = record {
  before_pairs = ground arith;
  before_others = ground arith;
  bus_printed = record { digits = ground arith; fits = omega arith };
  vendor_printed = record { digits = ground arith; fits = omega arith };
  product_printed = record { digits = ground arith; fits = omega arith };
  behind_id_pairs = omega arith;
  behind_id_others = omega arith;
  name_line = ground arith;
  behind_name_pairs = ground arith;
  behind_name_others = ground arith;
  serial_line = ground arith;
  after_pairs = omega arith;
  after_others = omega arith;
  short = omega arith;
}

parse_uevent_info-text_example :
    parse_uevent_info (some (text uevent)) no_ids ≡ (info_of uevent, true)
parse_uevent_info-text_example = parse_uevent_info-text uevent uevent-IsUevent no_ids

abbrev node : Node
node = record {
  devnode = some (b'h' ∷ []);
  hid_uevent = some (some (text uevent));
  usb_device = none;
  usb_interface = none;
  report_descriptor = some descriptor;
}

abbrev widen : Bytes → Option (List ℕ)
widen s = some s

create_device_info_for_device-Alike_example :
    Returns (Alike (length descriptor)) (create_device_info_for_device widen 20 node)
create_device_info_for_device-Alike_example =
    create_device_info_for_device-Alike widen 20 node (descriptor-IsDescriptor, omega arith)

abbrev entry : Entry
entry = record { has_path = true; uevent = holds (text uevent); node = some node }

abbrev listed : List (Option Bytes) → List DeviceInfo
listed [] = []
listed (serial ∷ serials) =
    record {
      path = some (b'p' ∷ []);
      vendor_id = 0x0E8D;
      product_id = 1;
      serial_number = serial;
      release_number = 0;
      manufacturer_string = none;
      product_string = none;
      usage_page = 1;
      usage = 1;
      interface_number = pos 0;
      bus_type = usb;
    }
    ∷ listed serials

hid_open-requested_path_example :
    hid_open
      (done (listed (some (b'A' ∷ []) ∷ some (b'B' ∷ []) ∷ []), none))
      (λ p. opened 3)
      0x0E8D
      1
      (some (b'B' ∷ []))
    ≡ done (some dev, none)
unfolding equal hid_open_path
hid_open-requested_path_example =
    hid_open-requested_path (λ p. opened 3) 0x0E8D 1 (some (b'B' ∷ []))
      (listed (some (b'A' ∷ []) ∷ some (b'B' ∷ []) ∷ [])) none (inr (λ p. cc), (inr (λ p. cc), tt))
