-- ===== src/Windows/Strings.antt =====
-- The functions of hidapi/windows/hid.c on the strings of an open device, `hid_get_report_descriptor`,
-- `hid_winapi_get_container_id` and `hid_error`. A buffer is known by the text that it holds; `none` is
-- a buffer that is not written.
pub mod Contract
use usb_hid_tool.Prelude.{
  ℕ, ◌-◌, Bool, true, false, not, ◌&&◌, ◌||◌, List, [], ◌∷◌, Option, none, some, ltb, ◌==◌,
  if◌then◌else◌, take, min,
}
use usb_hid_tool.Prelude.Int.{ℤ, pos, minus_one, ◌==ℤ◌}
use usb_hid_tool.Windows.DevNode.{
  Wide, Bus, usb, unknown, bluetooth, i2c, spi, virtual, DeviceInfo, Windows, Property,
  property_value, instance_id,
}

-- The message of an error.
pub data Message : Type 0 where
  zero_buffer null_device_info get_indexed_string get_preparsed_data not_reconstructed : Message
  invalid_container path_conversion no_instance_id no_device_node no_container_id : Message

pub record Device : Type 0 where
  pub device_handle : ℕ
  pub device_info : Option DeviceInfo
  pub last_error : Option Message

-- The result, the caller's buffer, and the device.
pub record Outcome (A : Type 0) : Type 0 where
  pub result : ℤ
  pub stored : Option A
  pub dev : Device

abbrev pub failed : {A : Type 0} → Device → Message → Outcome A
failed dev m = record {
  result = minus_one;
  stored = none;
  dev = record dev { last_error = some m };
}

abbrev pub succeeded : {A : Type 0} → Device → A → Outcome A
succeeded dev a = record { result = pos 0; stored = some a; dev = record dev { last_error = none } }

-- The tests, and the copy of at most `maxlen - 1` characters. `has_string` is `string != NULL`.
unfoldable pub copy_string : (DeviceInfo → Wide) → Device → Bool → ℕ → Outcome Wide
copy_string field dev has_string maxlen =
    if not has_string || maxlen == 0 then failed dev zero_buffer else elim dev.device_info [
      | none ↦ failed dev null_device_info
      | some info ↦ succeeded dev (take (maxlen - 1) (field info))
    ]

unfoldable pub hid_get_manufacturer_string : Device → Bool → ℕ → Outcome Wide
hid_get_manufacturer_string dev has_string maxlen =
    copy_string (λ (d : DeviceInfo). d.manufacturer_string) dev has_string maxlen

unfoldable pub hid_get_product_string : Device → Bool → ℕ → Outcome Wide
hid_get_product_string dev has_string maxlen =
    copy_string (λ (d : DeviceInfo). d.product_string) dev has_string maxlen

unfoldable pub hid_get_serial_number_string : Device → Bool → ℕ → Outcome Wide
hid_get_serial_number_string dev has_string maxlen =
    copy_string (λ (d : DeviceInfo). d.serial_number) dev has_string maxlen

unfoldable hid_get_device_info : Device → Option DeviceInfo × Device
hid_get_device_info dev = elim dev.device_info [
  | none ↦ (none, record dev { last_error = some null_device_info })
  | some info ↦ (some info, record dev { last_error = none })
]

abbrev is_usb : Option DeviceInfo → Bool
is_usb none = false
is_usb (some d) = elim d.bus_type [ usb ↦ true | _ ↦ false ]

-- The characters that `HidD_GetIndexedString` may store: MAX_STRING_WCHARS_USB at most over USB.
unfoldable pub indexed_size : Device → ℕ → ℕ
indexed_size dev maxlen = if is_usb dev.device_info && ltb 126 maxlen then 126 else maxlen

-- `get` is `HidD_GetIndexedString`: the text, by the handle, the index and the size in characters.
unfoldable pub hid_get_indexed_string : (ℕ → ℤ → ℕ → Option Wide) → Device → ℤ → ℕ → Outcome Wide
hid_get_indexed_string get dev string_index maxlen =
    elim (get dev.device_handle string_index (indexed_size dev maxlen)) [
      | none ↦ failed dev get_indexed_string
      | some s ↦ succeeded dev s
    ]

-- `reconstruct` is `hid_winapi_descriptor_reconstruct_pp_data` on the preparsed data of a handle, if
-- Windows gives them: the result, and the bytes of the array.
unfoldable pub hid_get_report_descriptor : (ℕ → Option (ℤ × List ℕ)) → Device → Outcome (List ℕ)
hid_get_report_descriptor reconstruct dev = elim (reconstruct dev.device_handle) [
  | none ↦ failed dev get_preparsed_data
  | some (res, buf) ↦ record {
    result = res;
    stored = some buf;
    dev = record dev { last_error = if res ==ℤ pos 0 then none else some not_reconstructed };
  }
]

-- `hid_winapi_get_container_id`, where `dev->device_info` is not NULL. `container` is the property
-- ContainerId of a device node; `has_container` is `container_id != NULL`.
unfoldable pub container_of : Windows → (ℕ → Option ℕ) → Wide → Device → Outcome ℕ
container_of os container path dev =
    elim (property_value (os.device_interface_property path instance_id)) [
      | none ↦ failed dev no_instance_id
      | some device_id ↦ elim (os.locate_devnode device_id) [
        | none ↦ failed dev no_device_node
        | some node ↦ elim (container node) [
          | none ↦ failed dev no_container_id
          | some id ↦ succeeded dev id
        ]
      ]
    ]

-- The path of the record, in UTF-16.
abbrev wide_path : Windows → Option (List ℕ) → Option Wide
wide_path os none = none
wide_path os (some path) = os.multi_byte_to_wide_char path

unfoldable hid_winapi_get_container_id :
    Windows → (ℕ → Option ℕ) → DeviceInfo → Device → Bool → Outcome ℕ
hid_winapi_get_container_id os container info dev has_container =
    if not has_container then failed dev invalid_container else elim (wide_path os info.path) [
      | none ↦ failed dev path_conversion
      | some path ↦ container_of os container path dev
    ]

-- `hid_error`: `none` is the text "Success". Without a device it tells the global error.
unfoldable pub hid_error : {G : Type 0} → Option Device → (Message → G) → Option G → Option G
hid_error none text global = global
hid_error (some dev) text global = elim dev.last_error [ none ↦ none | some m ↦ some (text m) ]
