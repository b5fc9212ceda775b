-- ===== src/Libusb/Interface.antt =====
-- `get_report_descriptor_size_from_interface_descriptors`, `is_xbox360`, `is_xboxone` and
-- `should_enumerate_interface` of hidapi/libusb/hid.c. The pointer `extra` is the list of the bytes
-- from it on, and `extra_length` the length of that list; below 0 it ends the loop as 0 does.
pub mod Size
pub mod Found
pub mod Xbox
use usb_hid_tool.Prelude.{
  ℕ, zero, suc, ◌+◌, ◌*◌, Bool, true, false, ◌&&◌, ◌||◌, List, [], ◌∷◌, Option, none, some, ltb,
  ◌==◌, if◌then◌else◌, length, drop,
}
use usb_hid_tool.Run.{Run, done, spent, ◌>>=◌, read}

abbrev pub Bytes : Type 0
Bytes = List ℕ

-- The fields of `struct libusb_interface_descriptor` that are used here.
pub record InterfaceDescriptor : Type 0 where
  pub number : ℕ
  pub interface_class : ℕ
  pub interface_subclass : ℕ
  pub interface_protocol : ℕ
  pub extra : Bytes

-- HID_API_MAX_REPORT_DESCRIPTOR_SIZE
abbrev max_report_descriptor_size : ℕ
max_report_descriptor_size = 4096

abbrev pub dt_hid : ℕ
dt_hid = 33

abbrev pub dt_report : ℕ
dt_report = 34

-- The loop over the `bNumDescriptors` entries, of which `left` are left.
unfoldable pub find_report : Bytes → ℕ → ℕ → Run (Option ℕ)
find_report extra i zero = done none
find_report extra i (suc left) = do
  type ← read extra (6 + 3 * i)
  if type == dt_report
      then (do
        high ← read extra (6 + 3 * i + 2)
        low ← read extra (6 + 3 * i + 1)
        done (some (high * 256 + low)))
      else find_report extra (suc i) left

-- The branch for a HID descriptor.
unfoldable pub hid_size : Bytes → Run ℕ
hid_size extra = if ltb (length extra) 6 then done max_report_descriptor_size else (do
  num_descriptors ← read extra 5
  if ltb (length extra) (6 + 3 * num_descriptors) then done max_report_descriptor_size else (do
    found ← find_report extra 0 num_descriptors
    elim found [ none ↦ done max_report_descriptor_size | some size ↦ done size ]))

pub data Round : Type 0 where
  result : ℕ → Round
  next : Bytes → Round

-- The body of the loop over the descriptors.
unfoldable pub size_round : Bytes → Run Round
size_round extra = do
  type ← read extra 1
  if type == dt_hid then (do size ← hid_size extra; done (result size)) else (do
    len ← read extra 0
    if len == 0 then done (result max_report_descriptor_size) else done (next (drop len extra)))

unfoldable pub size_loop : ℕ → Bytes → Run ℕ
size_loop zero extra = if ltb (length extra) 2 then done max_report_descriptor_size else spent
size_loop (suc fuel) extra = if ltb (length extra) 2 then done max_report_descriptor_size else (do
  r ← size_round extra
  elim r [ result size ↦ done size | next extra' ↦ size_loop fuel extra' ])

-- Each round moves at least one byte on, so that the length of `extra` is enough fuel.
unfoldable pub get_report_descriptor_size_from_interface_descriptors : InterfaceDescriptor → Run ℕ
get_report_descriptor_size_from_interface_descriptors d = size_loop (length d.extra) d.extra

abbrev pub xbox360_vendors : List ℕ
xbox360_vendors =
    0x0079 ∷ 0x044f ∷ 0x045e ∷ 0x046d ∷ 0x056e ∷ 0x06a3 ∷ 0x0738 ∷ 0x07ff ∷ 0x0e6f ∷ 0x0f0d ∷ 0x1038
    ∷ 0x11c9 ∷ 0x12ab ∷ 0x1430 ∷ 0x146b ∷ 0x1532 ∷ 0x15e4 ∷ 0x162e ∷ 0x1689 ∷ 0x1949 ∷ 0x1bad
    ∷ 0x20d6 ∷ 0x24c6 ∷ 0x2c22 ∷ 0x2dc8 ∷ 0x9886 ∷ []

abbrev pub xboxone_vendors : List ℕ
xboxone_vendors =
    0x044f ∷ 0x045e ∷ 0x0738 ∷ 0x0e6f ∷ 0x0f0d ∷ 0x10f5 ∷ 0x1532 ∷ 0x20d6 ∷ 0x24c6 ∷ 0x2dc8 ∷ 0x2e24
    ∷ 0x3537 ∷ []

-- The loop over `supported_vendors`.
unfoldable pub is_supported : ℕ → List ℕ → Bool
is_supported vendor [] = false
is_supported vendor (v ∷ vs) = if vendor == v then true else is_supported vendor vs

unfoldable pub is_xbox360 : ℕ → InterfaceDescriptor → Bool
is_xbox360 vendor d =
    if (d.interface_class == 255
      && d.interface_subclass == 93
      && (d.interface_protocol == 1 || d.interface_protocol == 129))
    then is_supported vendor xbox360_vendors
    else false

unfoldable pub is_xboxone : ℕ → InterfaceDescriptor → Bool
is_xboxone vendor d =
    if (d.number == 0
      && d.interface_class == 255
      && d.interface_subclass == 71
      && d.interface_protocol == 208)
    then is_supported vendor xboxone_vendors
    else false

unfoldable pub should_enumerate_interface : ℕ → InterfaceDescriptor → Bool
should_enumerate_interface vendor d =
    if d.interface_class == 3
    then true
    else if is_xbox360 vendor d
    then true
    else if is_xboxone vendor d
    then true
    else false
