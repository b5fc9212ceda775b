-- ===== src/Windows/Enumerate.antt =====
-- `hid_enumerate`, `hid_open`, `hid_open_path`, `open_device` and `hid_close` of hidapi/windows/hid.c.
-- Memory allocation and `CreateEvent` succeed.
pub mod Records
pub mod Lists
pub mod Listing
pub mod Open
pub mod Balance
use usb_hid_tool.Prelude.{
  ℕ, zero, suc, ◌+◌, ◌-◌, Bool, true, false, not, ◌&&◌, ◌||◌, List, [], ◌∷◌, ◌++◌, Option, none,
  some, ◌==◌, if◌then◌else◌,
}
use usb_hid_tool.Run.{Run, done, spent, ◌>>=◌}
use usb_hid_tool.Linux.Uevent.{equal}
use usb_hid_tool.Windows.Transfers.{Device, Bytes}
use usb_hid_tool.Windows.DevNode.{Wide, DeviceInfo, Attributes, Caps, Windows}
use usb_hid_tool.Windows.State.{
  State, with_global_error, opened_handle, closed_handle, created_events, closed_events,
  got_preparsed, freed_preparsed, init_failed, list_size_failed, list_failed, no_devices,
  no_matching, not_found, path_conversion, open_failed, set_buffers_failed, preparsed_failed,
  caps_failed,
}
use usb_hid_tool.Windows.DeviceInfo.{hid_internal_get_device_info}

-- `hid_init`, and whether it succeeds.
unfoldable pub hid_init : Bool → State → Bool × State
hid_init resolved s =
    let cleared : State = record s { global_error = none } in
    if resolved then (true, cleared) else (false, with_global_error cleared init_failed)

-- One round of asking for the list of interfaces: the size is refused, or the list is too small by
-- then (CR_BUFFER_SMALL), is refused, or is got.
pub data ListAnswer : Type 0 where
  size_refused too_small list_refused : ListAnswer
  listed : List Wide → ListAnswer

-- The do-while loop, over the answers that Windows gives in turn.
unfoldable pub interface_list : List ListAnswer → State → Run (Option (List Wide) × State)
interface_list [] s = spent
interface_list (size_refused ∷ rest) s = done (none, with_global_error s list_size_failed)
interface_list (too_small ∷ rest) s = interface_list rest s
interface_list (list_refused ∷ rest) s = done (none, with_global_error s list_failed)
interface_list (listed interfaces ∷ rest) s = done (some interfaces, s)

-- `want == 0x0 || have == want`
abbrev pub accepts : ℕ → ℕ → Bool
accepts want have = want == 0 || have == want

-- The error where no record was made.
abbrev pub none_found : ℕ → ℕ → List DeviceInfo → State → State
none_found vendor_id product_id [] s =
    with_global_error s (if vendor_id == 0 && product_id == 0 then no_devices else no_matching)
none_found vendor_id product_id (d ∷ ds) s = s

-- The fields that `new_hid_device` and then `hid_open_path` set.
abbrev opened_device : Caps → (ℕ → Bytes) → Device
opened_device caps malloc = record {
  blocking = true;
  output_report_length = caps.output_report_byte_length;
  write_buf = none;
  input_report_length = caps.input_report_byte_length;
  feature_report_length = caps.feature_report_byte_length;
  feature_buf = none;
  last_error = none;
  last_read_error = none;
  read_pending = false;
  read_buf = malloc caps.input_report_byte_length;
}

-- `new_hid_device`, which creates two events, and the fields that `hid_open_path` sets in it.
unfoldable pub new_hid_device : Caps → (ℕ → Bytes) → State → Device × State
new_hid_device caps malloc s = (opened_device caps malloc, created_events s)

-- A `hid_device`: its handle, its information, and the fields that transfers use.
pub record HidDevice : Type 0 where
  pub device_handle : ℕ
  pub device_info : DeviceInfo
  pub transfers : Device

module _ (os : Windows) where
  -- `open_device`
  unfoldable pub open_device : Wide → Bool → Option ℕ
  open_device path open_rw = os.create_file path open_rw

  -- One interface: the record that it adds, and the state.
  unfoldable pub enumerate_interface : ℕ → ℕ → Wide → State → Option DeviceInfo × State
  enumerate_interface vendor_id product_id interface s = elim (open_device interface false) [
    | none ↦ (none, s)
    | some handle ↦ elim (os.get_attributes handle) [
      | none ↦ (none, closed_handle (opened_handle s))
      | some attrib ↦
          if accepts vendor_id attrib.vendor_id && accepts product_id attrib.product_id
          then (let (dev, s') =
                hid_internal_get_device_info os interface handle (opened_handle s) in
              (some dev, closed_handle s'))
          else (none, closed_handle (opened_handle s))
    ]
  ]

  abbrev pub appended : List DeviceInfo → Option DeviceInfo → List DeviceInfo
  appended found none = found
  appended found (some d) = found ++ (d ∷ [])

  -- The loop. A record goes behind those made so far.
  unfoldable pub enumerate_interfaces :
      ℕ → ℕ → List Wide → List DeviceInfo → State → List DeviceInfo × State
  enumerate_interfaces vendor_id product_id [] found s = (found, s)
  enumerate_interfaces vendor_id product_id (interface ∷ interfaces) found s =
      let (made, s') = enumerate_interface vendor_id product_id interface s in
      enumerate_interfaces vendor_id product_id interfaces (appended found made) s'

  unfoldable pub enumerate_list : ℕ → ℕ → Option (List Wide) × State → List DeviceInfo × State
  enumerate_list vendor_id product_id (none, s) = ([], s)
  enumerate_list vendor_id product_id (some interfaces, s) =
      let (found, s') = enumerate_interfaces vendor_id product_id interfaces [] s in
      (found, none_found vendor_id product_id found s')

  -- `resolved` says that `hid_init` finds the functions of Windows.
  unfoldable pub hid_enumerate :
      Bool → List ListAnswer → ℕ → ℕ → State → Run (List DeviceInfo × State)
  hid_enumerate resolved answers vendor_id product_id s =
      let (ok, s') = hid_init resolved s in
      if not ok
      then done ([], s')
      else (do list ← interface_list answers s'; done (enumerate_list vendor_id product_id list))

  -- The handle: read and write, or else neither.
  unfoldable pub open_any : Wide → Option ℕ
  open_any path = elim (open_device path true) [
    | some handle ↦ some handle
    | none ↦ open_device path false
  ]

  -- From the handle on.
  unfoldable pub open_handle : (ℕ → Bytes) → Wide → ℕ → State → Option HidDevice × State
  open_handle malloc path handle s =
      if not (os.set_num_input_buffers handle)
      then (none, closed_handle (with_global_error s set_buffers_failed))
      else elim (os.get_preparsed_data handle) [
        | none ↦ (none, closed_handle (with_global_error s preparsed_failed))
        | some pp_data ↦ elim (os.get_caps pp_data) [
          | none ↦ (
            none,
            freed_preparsed (closed_handle (with_global_error (got_preparsed s) caps_failed)),
          )
          | some caps ↦
              let (transfers, s₁) = new_hid_device caps malloc (got_preparsed s) in
              let (info, s₂) = hid_internal_get_device_info os path handle s₁ in
              (
                some (record { device_handle = handle; device_info = info; transfers = transfers }),
                freed_preparsed s₂,
              )
        ]
      ]

  unfoldable pub hid_open_path : (ℕ → Bytes) → Bool → Bytes → State → Option HidDevice × State
  hid_open_path malloc resolved path s =
      let (ok, s') = hid_init resolved s in
      if not ok then (none, s') else elim (os.multi_byte_to_wide_char path) [
        | none ↦ (none, with_global_error s' path_conversion)
        | some interface_path ↦ elim (open_any interface_path) [
          | none ↦ (none, with_global_error s' open_failed)
          | some handle ↦ open_handle malloc interface_path handle (opened_handle s')
        ]
      ]

  -- `hid_close`; none is NULL. `CancelIo` comes first, and changes none of what is counted here, since
  -- the device is gone behind it.
  unfoldable pub hid_close : Option HidDevice → State → State
  hid_close none s = s
  hid_close (some dev) s = closed_handle (closed_events s)

  -- The search of `hid_open`: the path of the first record that matches.
  unfoldable pub path_to_open : ℕ → ℕ → Option Wide → List DeviceInfo → Option Bytes
  path_to_open vendor_id product_id serial [] = none
  path_to_open vendor_id product_id serial (d ∷ ds) =
      let rest = path_to_open vendor_id product_id serial ds in
      if d.vendor_id == vendor_id && d.product_id == product_id
      then elim serial [
        | none ↦ d.path
        | some want ↦ if equal want d.serial_number then d.path else rest
      ]
      else rest

  -- `if (path_to_open)`
  abbrev pub open_found : (ℕ → Bytes) → Bool → Option Bytes → State → Option HidDevice × State
  open_found malloc resolved none s = (none, with_global_error s not_found)
  open_found malloc resolved (some path) s = hid_open_path malloc resolved path s

  unfoldable pub hid_open_listed :
      (ℕ → Bytes) → Bool → ℕ → ℕ → Option Wide → List DeviceInfo × State → Option HidDevice × State
  hid_open_listed malloc resolved vendor_id product_id serial ([], s) = (none, s)
  hid_open_listed malloc resolved vendor_id product_id serial (d ∷ ds, s) =
      open_found malloc resolved (path_to_open vendor_id product_id serial (d ∷ ds)) s

  unfoldable pub hid_open :
      (ℕ → Bytes)
      → Bool
      → List ListAnswer
      → ℕ
      → ℕ
      → Option Wide
      → State
      → Run (Option HidDevice × State)
  hid_open malloc resolved answers vendor_id product_id serial s = do
    records ← hid_enumerate resolved answers vendor_id product_id s
    done (hid_open_listed malloc resolved vendor_id product_id serial records)
