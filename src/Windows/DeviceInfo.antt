-- ===== src/Windows/DeviceInfo.antt =====
-- `hid_internal_get_device_info` of hidapi/windows/hid.c and the functions it calls. Windows is a
-- parameter, a record of its answers; a text is a list of wide characters before the NUL, and memory
-- allocation succeeds. `long` and `int` are 32 bits wide.
pub mod Serial
pub mod Ids
use usb_hid_tool.Prelude.{
  ℕ, zero, suc, ◌-◌, ◌%◌, ◌^◌, min, Bool, true, false, not, ◌&&◌, List, [], ◌∷◌, ◌++◌, Option, none,
  some, ◌==◌, if◌then◌else◌, map,
}
use usb_hid_tool.Prelude.Int.{ℤ, pos, negsuc, minus_one, ◌==ℤ◌}
use usb_hid_tool.Linux.Uevent.{prefixed, skip_space}
use usb_hid_tool.Windows.State.{State, got_preparsed, freed_preparsed}
use usb_hid_tool.Windows.DevNode.{
  Wide, Bus, DeviceInfo, Attributes, Caps, Key, Property, Windows, property_value, strip,
  after_token, contains, magnitude, signed_text, hid_internal_extract_int_token_value, token_usb,
  token_bthenum, token_bthledevice, token_i2c, token_spi, token_ig, token_rev, token_mi, unknown,
  usb, bluetooth, i2c, spi, virtual, instance_id, compatible_ids, hardware_ids, manufacturer, name,
  bluetooth_manufacturer, bluetooth_device_address, bluetooth_model_number,
}

-- `bus_type` and `bus_flags` by one compatible id in upper case, if it decides.
unfoldable pub bus_of_id : Wide → Option (Bus × Bool)
bus_of_id id =
    if contains id token_usb
    then some (usb, false)
    else if contains id token_bthenum
    then some (bluetooth, false)
    else if contains id token_bthledevice
    then some (bluetooth, true)
    else if contains id token_i2c
    then some (i2c, false)
    else if contains id token_spi
    then some (spi, false)
    else none

-- `hid_internal_detect_bus_type_result`; `is_ble` is HID_API_BUS_FLAG_BLE.
pub record BusType : Type 0 where
  pub dev_node : ℕ
  pub bus_type : Bus
  pub is_ble : Bool

abbrev no_bus : BusType
no_bus = record { dev_node = 0; bus_type = unknown; is_ble = false }

abbrev detected : ℕ → Option (Bus × Bool) → BusType
detected node none = record { dev_node = node; bus_type = unknown; is_ble = false }
detected node (some (bus, ble)) = record { dev_node = node; bus_type = bus; is_ble = ble }

abbrev pub is_empty : Wide → Bool
is_empty [] = true
is_empty (c ∷ cs) = false

-- A property that takes the place of a string that is empty.
abbrev pub fill : Wide → Option Wide → Wide
fill [] (some s) = s
fill [] none = []
fill (c ∷ cs) found = c ∷ cs

-- The low 16 bits.
abbrev pub ushort : ℤ → ℕ
ushort (pos n) = n % 2 ^ 16
ushort (negsuc n) = 2 ^ 16 - 1 - n % 2 ^ 16

-- From the end of the text back to its second character: what stands behind the last '\\', unless a
-- '&' is met before.
unfoldable pub scan_back : Wide → Wide → Option Wide
scan_back [] behind = none
scan_back (c ∷ []) behind = none
scan_back (c ∷ d ∷ before) behind =
    let rest = scan_back (d ∷ before) (c ∷ behind) in
    if c == b'&' then none else if c == b'\\' then some behind else rest

unfoldable pub reverse_onto : Wide → Wide → Wide
reverse_onto [] acc = acc
reverse_onto (c ∷ cs) acc = reverse_onto cs (c ∷ acc)

unfoldable pub serial_of_instance : Wide → Option Wide
serial_of_instance device_id = scan_back (reverse_onto device_id []) []

-- One hardware id in upper case.
unfoldable pub hardware_id_info : Wide → DeviceInfo → DeviceInfo
hardware_id_info id dev =
    let release = hid_internal_extract_int_token_value id token_rev in
    let interface = hid_internal_extract_int_token_value id token_mi in
    let released : DeviceInfo =
      if dev.release_number == 0 && not (release ==ℤ minus_one)
      then record dev { release_number = ushort release }
      else dev in
    if dev.interface_number ==ℤ minus_one && not (interface ==ℤ minus_one)
    then record released { interface_number = interface }
    else released

unfoldable pub hardware_ids_info : List Wide → DeviceInfo → DeviceInfo
hardware_ids_info [] dev = dev
hardware_ids_info (id ∷ ids) dev = hardware_ids_info ids (hardware_id_info id dev)

-- If the interface number is not known, there is only one interface.
abbrev pub single_interface : DeviceInfo → DeviceInfo
single_interface dev =
    if dev.interface_number ==ℤ minus_one then record dev { interface_number = pos 0 } else dev

module _ (os : Windows) where
  abbrev pub text : ℕ → Key → Option Wide
  text node key = property_value (os.devnode_text node key)

  abbrev pub texts : ℕ → Key → Option (List Wide)
  texts node key = property_value (os.devnode_texts node key)

  unfoldable pub hid_internal_towupper : Wide → Wide
  hid_internal_towupper s = map os.towupper s

  -- The loop over the compatible ids: the first that decides.
  unfoldable pub bus_of_ids : List Wide → Option (Bus × Bool)
  bus_of_ids [] = none
  bus_of_ids (id ∷ ids) =
      let rest = bus_of_ids ids in
      elim (bus_of_id (hid_internal_towupper id)) [ some b ↦ some b | none ↦ rest ]

  unfoldable pub hid_internal_detect_bus_type : Wide → BusType
  hid_internal_detect_bus_type interface_path =
      elim (property_value (os.device_interface_property interface_path instance_id)) [
        | none ↦ no_bus
        | some device_id ↦ elim (os.locate_devnode device_id) [
          | none ↦ no_bus
          | some child ↦ elim (os.get_parent child) [
            | none ↦ no_bus
            | some node ↦ elim (texts node compatible_ids) [
              | none ↦ no_bus
              | some ids ↦ detected node (bus_of_ids ids)
            ]
          ]
        ]
      ]

  -- The serial number out of the instance id of the USB device.
  unfoldable pub instance_serial : ℕ → DeviceInfo → DeviceInfo
  instance_serial node dev = elim (text node instance_id) [
    | none ↦ dev
    | some id ↦ elim (serial_of_instance id) [
      | none ↦ single_interface dev
      | some serial ↦ single_interface (record dev { serial_number = serial })
    ]
  ]

  -- A composite device has it at the parent of the interface.
  unfoldable pub usb_serial : ℕ → DeviceInfo → DeviceInfo
  usb_serial node dev =
      if not (is_empty dev.serial_number)
      then single_interface dev
      else if dev.interface_number ==ℤ minus_one
      then instance_serial node dev
      else elim (os.get_parent node) [ none ↦ dev | some parent ↦ instance_serial parent dev ]

  -- From the hardware ids on.
  unfoldable pub usb_node_info : ℕ → DeviceInfo → DeviceInfo
  usb_node_info node dev = elim (texts node hardware_ids) [
    | none ↦ dev
    | some ids ↦
        let dev' = hardware_ids_info (map hid_internal_towupper ids) dev in
        usb_serial node (record dev' {
          manufacturer_string = fill dev'.manufacturer_string (text node manufacturer);
        })
  ]

  unfoldable pub hid_internal_get_usb_info : DeviceInfo → ℕ → DeviceInfo
  hid_internal_get_usb_info dev node = elim (text node instance_id) [
    | none ↦ dev
    | some id ↦
        if hid_internal_extract_int_token_value (hid_internal_towupper id) token_ig ==ℤ minus_one
        then usb_node_info node dev
        else elim (os.get_parent node) [ none ↦ dev | some parent ↦ usb_node_info parent dev ]
  ]

  -- The model number, or else the name of the device above.
  unfoldable pub ble_product : ℕ → Option Wide
  ble_product node = elim (text node bluetooth_model_number) [
    | some s ↦ some s
    | none ↦ elim (os.get_parent node) [ none ↦ none | some parent ↦ text parent name ]
  ]

  unfoldable pub hid_internal_get_ble_info : DeviceInfo → ℕ → DeviceInfo
  hid_internal_get_ble_info dev node = record dev {
    manufacturer_string = fill dev.manufacturer_string (text node bluetooth_manufacturer);
    serial_number = fill dev.serial_number (text node bluetooth_device_address);
    product_string = fill dev.product_string (ble_product node);
  }

  -- MAX_STRING_WCHARS_USB and MAX_STRING_WCHARS
  abbrev string_wchars : Bus → ℕ
  string_wchars usb = 126
  string_wchars bus = 256

  -- `HidP_GetCaps` on the preparsed data of the device, if it has any.
  unfoldable pub device_caps : ℕ → Option Caps
  device_caps handle = elim (os.get_preparsed_data handle) [
    | none ↦ none
    | some pp ↦ os.get_caps pp
  ]

  -- The preparsed data are got, if there are any, and then freed.
  unfoldable pub preparsed_read : ℕ → State → State
  preparsed_read handle s = elim (os.get_preparsed_data handle) [
    | none ↦ s
    | some pp ↦ freed_preparsed (got_preparsed s)
  ]

  -- The record before the part that depends on string descriptors.
  unfoldable pub plain_info : Wide → ℕ → Bus → DeviceInfo
  plain_info path handle bus =
      let attrib = os.get_attributes handle in
      let caps = device_caps handle in
      record {
        path = os.wide_char_to_multi_byte path;
        vendor_id = elim attrib [ none ↦ 0 | some a ↦ a.vendor_id ];
        product_id = elim attrib [ none ↦ 0 | some a ↦ a.product_id ];
        serial_number = os.get_serial_number_string handle (string_wchars bus);
        release_number = elim attrib [ none ↦ 0 | some a ↦ a.version_number ];
        manufacturer_string = os.get_manufacturer_string handle (string_wchars bus);
        product_string = os.get_product_string handle (string_wchars bus);
        usage_page = elim caps [ none ↦ 0 | some c ↦ c.usage_page ];
        usage = elim caps [ none ↦ 0 | some c ↦ c.usage ];
        interface_number = minus_one;
        bus_type = bus;
      }

  -- The switch on the bus type.
  unfoldable pub bus_info : BusType → DeviceInfo → DeviceInfo
  bus_info b dev = elim b.bus_type [
    | usb ↦ hid_internal_get_usb_info dev b.dev_node
    | bluetooth ↦ if b.is_ble then hid_internal_get_ble_info dev b.dev_node else dev
    | _ ↦ dev
  ]

  -- The record of a device.
  unfoldable pub device_info_of : Wide → ℕ → DeviceInfo
  device_info_of path handle =
      let b = hid_internal_detect_bus_type path in bus_info b (plain_info path handle b.bus_type)

  -- The record and the state; allocating the record succeeds.
  unfoldable pub hid_internal_get_device_info : Wide → ℕ → State → DeviceInfo × State
  hid_internal_get_device_info path handle s = (device_info_of path handle, preparsed_read handle s)
