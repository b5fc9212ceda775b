-- ===== src/Windows/DevNode.antt =====
-- The types of hidapi/windows/hid.c for the search for devices, the calls of Windows, and the search for a
-- number in a hardware id. Windows is a parameter, a record of its answers; a text is a list of wide
-- characters before the NUL. `long` is 32 bits wide.
use usb_hid_tool.Prelude.{
  ℕ, zero, suc, ◌-◌, ◌^◌, min, Bool, true, false, ◌&&◌, List, [], ◌∷◌, Option, none, some, ◌==◌,
  if◌then◌else◌,
}
use usb_hid_tool.Prelude.Int.{ℤ, pos, negsuc, minus_one}
use usb_hid_tool.Linux.Uevent.{prefixed, skip_space}

abbrev pub Wide : Type 0
Wide = List ℕ

-- `hid_bus_type`
pub data Bus : Type 0 where
  unknown usb bluetooth i2c spi virtual : Bus

-- `struct hid_device_info`, its `next` left to the list.
pub record DeviceInfo : Type 0 where
  pub path : Option (List ℕ)
  pub vendor_id : ℕ
  pub product_id : ℕ
  pub serial_number : Wide
  pub release_number : ℕ
  pub manufacturer_string : Wide
  pub product_string : Wide
  pub usage_page : ℕ
  pub usage : ℕ
  pub interface_number : ℤ
  pub bus_type : Bus

-- `HIDD_ATTRIBUTES` and `HIDP_CAPS`
pub record Attributes : Type 0 where
  pub vendor_id : ℕ
  pub product_id : ℕ
  pub version_number : ℕ

pub record Caps : Type 0 where
  pub usage_page : ℕ
  pub usage : ℕ
  pub input_report_byte_length : ℕ
  pub output_report_byte_length : ℕ
  pub feature_report_byte_length : ℕ

pub data Key : Type 0 where
  instance_id compatible_ids hardware_ids manufacturer name : Key
  bluetooth_manufacturer bluetooth_device_address bluetooth_model_number : Key

-- The answers to the two calls for a property: whether the first one is CR_BUFFER_SMALL and of the
-- type expected, and what the second one stores.
pub record Property (A : Type 0) : Type 0 where
  pub buffer_small : Bool
  pub expected_type : Bool
  pub value : Option A

pub record Windows : Type 0 where
  pub wide_char_to_multi_byte : Wide → Option (List ℕ)
  pub multi_byte_to_wide_char : List ℕ → Option Wide
  pub towupper : ℕ → ℕ
  -- `CreateFileW`: a handle, or INVALID_HANDLE_VALUE; `true` asks to read and write
  pub create_file : Wide → Bool → Option ℕ
  pub get_attributes : ℕ → Option Attributes
  pub get_preparsed_data : ℕ → Option ℕ
  pub get_caps : ℕ → Option Caps
  pub set_num_input_buffers : ℕ → Bool
  -- the string in a buffer of a number of characters, empty where there is none
  pub get_serial_number_string : ℕ → ℕ → Wide
  pub get_manufacturer_string : ℕ → ℕ → Wide
  pub get_product_string : ℕ → ℕ → Wide
  pub device_interface_property : Wide → Key → Property Wide
  pub devnode_text : ℕ → Key → Property Wide
  pub devnode_texts : ℕ → Key → Property (List Wide)
  pub locate_devnode : Wide → Option ℕ
  pub get_parent : ℕ → Option ℕ

-- `hid_internal_get_devnode_property` and `hid_internal_get_device_interface_property`
unfoldable pub property_value : {A : Type 0} → Property A → Option A
property_value p = if p.buffer_small && p.expected_type then p.value else none

-- What follows a token at the head of a text.
unfoldable pub strip : Wide → Wide → Option Wide
strip [] s = some s
strip (t ∷ ts) [] = none
strip (t ∷ ts) (c ∷ cs) = let rest = strip ts cs in if t == c then rest else none

-- `wcsstr` and the move past the token.
unfoldable pub after_token : Wide → Wide → Option Wide
after_token token [] = strip token []
after_token token (c ∷ cs) =
    let rest = after_token token cs in elim (strip token (c ∷ cs)) [ some r ↦ some r | none ↦ rest ]

abbrev pub contains : Wide → Wide → Bool
contains s token = elim (after_token token s) [ some _ ↦ true | none ↦ false ]

-- `wcstol(s, &end, 16)`, or none where nothing is converted.
abbrev pub magnitude : Bool → Option (ℕ × List ℕ) → Option ℤ
magnitude minus none = none
magnitude false (some (v, _)) = some (pos (min v (2 ^ 31 - 1)))
magnitude true (some (zero, _)) = some (pos 0)
magnitude true (some (suc v, _)) = some (negsuc (min v (2 ^ 31 - 1)))

unfoldable pub signed_text : Wide → Option ℤ
signed_text [] = none
signed_text (c ∷ cs) =
    if c == b'-'
    then magnitude true (prefixed cs)
    else if c == b'+'
    then magnitude false (prefixed cs)
    else magnitude false (prefixed (c ∷ cs))

unfoldable pub hid_internal_extract_int_token_value : Wide → Wide → ℤ
hid_internal_extract_int_token_value string token = elim (after_token token string) [
  | none ↦ minus_one
  | some s ↦ elim (signed_text (skip_space s)) [ none ↦ minus_one | some v ↦ v ]
]

abbrev pub token_usb : Wide
token_usb = b'U' ∷ b'S' ∷ b'B' ∷ []

abbrev pub token_bthenum : Wide
token_bthenum = b'B' ∷ b'T' ∷ b'H' ∷ b'E' ∷ b'N' ∷ b'U' ∷ b'M' ∷ []

abbrev pub token_bthledevice : Wide
token_bthledevice = b'B' ∷ b'T' ∷ b'H' ∷ b'L' ∷ b'E' ∷ b'D' ∷ b'E' ∷ b'V' ∷ b'I' ∷ b'C' ∷ b'E' ∷ []

abbrev pub token_i2c : Wide
token_i2c = b'P' ∷ b'N' ∷ b'P' ∷ b'0' ∷ b'C' ∷ b'5' ∷ b'0' ∷ []

abbrev pub token_spi : Wide
token_spi = b'P' ∷ b'N' ∷ b'P' ∷ b'0' ∷ b'C' ∷ b'5' ∷ b'1' ∷ []

abbrev pub token_ig : Wide
token_ig = b'I' ∷ b'G' ∷ b'_' ∷ []

abbrev pub token_rev : Wide
token_rev = b'R' ∷ b'E' ∷ b'V' ∷ b'_' ∷ []

abbrev pub token_mi : Wide
token_mi = b'M' ∷ b'I' ∷ b'_' ∷ []
