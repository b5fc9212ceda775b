-- ===== src/Linux/Enumerate.antt =====
-- `hid_enumerate`, `hid_open`, `hid_open_path` and `hid_get_report_descriptor` of hidapi/linux/hid.c.
-- What udev and sysfs hold for one entry of the "hidraw" subsystem is a record of facts; memory
-- allocation succeeds. Wide texts are lists, and the global error is what `hid_error(NULL)` tells.
pub mod Filter
pub mod Open
use usb_hid_tool.Prelude.{
  ℕ, zero, suc, Bool, true, false, not, ◌&&◌, ◌||◌, List, [], ◌∷◌, ◌++◌, Option, none, some, ltb,
  leb, ◌==◌, if◌then◌else◌, length, take,
}
use usb_hid_tool.Prelude.Int.{ℤ, pos, negsuc, minus_one}
use usb_hid_tool.Run.{Run, done, fault, ◌>>=◌}
use usb_hid_tool.Linux.Uevent.{Bytes, equal, Ids, parse_hid_vid_pid_from_uevent}
use usb_hid_tool.Linux.Device.{Device, new_hid_device, Message, zero_buffer, system}
use usb_hid_tool.Linux.DeviceInfo.{Wide, DeviceInfo, Node, no_ids, create_device_info_for_device}

-- The global error.
pub data GlobalError : Type 0 where
  no_udev no_hid_id no_devices no_matching not_found : GlobalError
  open_failed read_failed not_hidraw : ℕ → GlobalError

-- The file `<sysfs_path>/device/uevent`: it cannot be opened or read, or it holds a text.
pub data UeventFile : Type 0 where
  unopened unread : ℕ → UeventFile
  holds : Bytes → UeventFile

-- An entry of the list: `has_path` says that its name is not NULL, and `node` is what
-- `udev_device_new_from_syspath` gives.
pub record Entry : Type 0 where
  pub has_path : Bool
  pub uevent : UeventFile
  pub node : Option Node

-- `parse_hid_vid_pid_from_sysfs` with `parse_hid_vid_pid_from_uevent_path`: the identifiers if
-- they are found, and the global error afterwards. At most 1023 bytes are read.
unfoldable pub parse_hid_vid_pid_from_sysfs :
    UeventFile → Option GlobalError → Option Ids × Option GlobalError
parse_hid_vid_pid_from_sysfs (unopened e) err = (none, some (open_failed e))
parse_hid_vid_pid_from_sysfs (unread e) err = (none, some (read_failed e))
parse_hid_vid_pid_from_sysfs (holds text) err =
    let (ids, whole) = parse_hid_vid_pid_from_uevent (take 1023 text) no_ids in
    if whole then (some ids, err) else (none, some no_hid_id)

-- `want != 0 && want != have`
abbrev mismatch : ℕ → ℕ → Bool
mismatch want have = not (want == 0) && not (want == have)

-- The tests before a record is made: whether the entry is looked at, and the error afterwards.
unfoldable pub wanted : ℕ → ℕ → Entry → Option GlobalError → Bool × Option GlobalError
wanted vendor product e err =
    if not e.has_path
    then (false, err)
    else if vendor == 0 && product == 0
    then (true, err)
    else (let (ids, err') = parse_hid_vid_pid_from_sysfs e.uevent err in
        elim ids [
          | none ↦ (false, err')
          | some i ↦ (not (mismatch vendor i.vendor_id || mismatch product i.product_id), err')
        ])

-- The error where nothing was found.
abbrev pub none_found : ℕ → ℕ → List DeviceInfo → Option GlobalError → Option GlobalError
none_found vendor product [] err =
    if vendor == 0 && product == 0 then some no_devices else some no_matching
none_found vendor product (d ∷ ds) err = err

module _ (mbstowcs : Bytes → Option Wide) (fuel : ℕ) where
  unfoldable pub infos_of_node : Option Node → Run (List DeviceInfo)
  infos_of_node none = done []
  infos_of_node (some node) = create_device_info_for_device mbstowcs fuel node

  unfoldable pub entry_infos : Bool → Entry → Run (List DeviceInfo)
  entry_infos keep e = if keep then infos_of_node e.node else done []

  -- The loop. The records of an entry go behind those found so far.
  unfoldable pub enumerate_entries :
      ℕ
      → ℕ
      → List Entry
      → List DeviceInfo
      → Option GlobalError
      → Run (List DeviceInfo × Option GlobalError)
  enumerate_entries vendor product [] found err = done (found, err)
  enumerate_entries vendor product (e ∷ es) found err = do
    infos ← entry_infos (wanted vendor product e err).0 e
    enumerate_entries vendor product es (found ++ infos) (wanted vendor product e err).1

  -- `hid_init` clears the global error. `udev` says that the udev context could be made.
  unfoldable pub hid_enumerate :
      Bool → List Entry → ℕ → ℕ → Run (List DeviceInfo × Option GlobalError)
  hid_enumerate udev entries vendor product = if not udev then done ([], some no_udev) else (do
    r ← enumerate_entries vendor product entries [] none
    done (r.0, none_found vendor product r.0 r.1))

-- The search of `hid_open`. `wcscmp` reads through the serial number of the record, which may
-- be NULL.
abbrev pub serial_matches : Option Wide → Option Wide → Run Bool
serial_matches none have = done true
serial_matches (some want) none = fault
serial_matches (some want) (some have) = done (equal want have)

unfoldable pub path_to_open : ℕ → ℕ → Option Wide → List DeviceInfo → Run (Option Bytes)
path_to_open vendor product serial [] = done none
path_to_open vendor product serial (d ∷ ds) =
    elim (d.vendor_id == vendor && d.product_id == product) [
      | true ↦ (do
        same ← serial_matches serial d.serial_number
        elim same [ true ↦ done d.path | false ↦ path_to_open vendor product serial ds ])
      | false ↦ path_to_open vendor product serial ds
    ]

-- The kernel's answers to `open` and then HIDIOCGRDESCSIZE: a hidraw device with its handle, no
-- handle, or a file that is no hidraw device; the last two with an `errno`.
pub data Opening : Type 0 where
  opened : ℕ → Opening
  refused : ℕ → Opening
  opened_other : ℕ → Opening

-- `hid_open_path`, after `hid_init` has cleared the error.
unfoldable pub hid_open_path : Opening → Option Device × Option GlobalError
hid_open_path (opened handle) = (some (new_hid_device handle), none)
hid_open_path (refused e) = (none, some (open_failed e))
hid_open_path (opened_other e) = (none, some (not_hidraw e))

-- `hid_open`: the handle and the global error. An enumeration that finds nothing leaves its error.
unfoldable pub hid_open :
    Run (List DeviceInfo × Option GlobalError)
    → (Bytes → Opening)
    → ℕ
    → ℕ
    → Option Wide
    → Run (Option Device × Option GlobalError)
hid_open enumerated kernel vendor product serial = do
  r ← enumerated
  elim r.0 [
    | [] ↦ done (none, r.1)
    | d ∷ ds ↦ (do
      path ← path_to_open vendor product serial (d ∷ ds)
      elim path [ none ↦ done (none, some not_found) | some p ↦ done (hid_open_path (kernel p)) ])
  ]
