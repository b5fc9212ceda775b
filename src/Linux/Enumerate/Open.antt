-- ===== src/Linux/Enumerate/Open.antt =====
-- Which device `hid_open` of hidapi/linux/hid.c opens.
use usb_hid_tool.Prelude.{
  ℕ, ◌≡◌, ◌≢◌, ◌⊎◌, refl, Bool, true, false, ◌&&◌, List, [], ◌∷◌, Option, none, some, ◌==◌,
  if◌then◌else◌, arith, inl, inr,
}
use usb_hid_tool.Run.{done, All}
use usb_hid_tool.Linux.Uevent.{Bytes, equal}
use usb_hid_tool.Linux.Device.{Device}
use usb_hid_tool.Linux.DeviceInfo.{Wide, DeviceInfo}
use usb_hid_tool.Linux.Enumerate.{
  GlobalError, not_found, Opening, serial_matches, path_to_open, hid_open_path, hid_open,
}

abbrev serial_is : Option Wide → Option Wide → Bool
serial_is none have = true
serial_is (some want) none = false
serial_is (some want) (some have) = equal want have

-- A record of the requested device: none asks for any serial number.
abbrev is_requested : ℕ → ℕ → Option Wide → DeviceInfo → Bool
is_requested vendor product serial d =
    (d.vendor_id == vendor && d.product_id == product) && serial_is serial d.serial_number

-- The path of the first record of the requested device.
abbrev requested_path : ℕ → ℕ → Option Wide → List DeviceInfo → Option Bytes
requested_path vendor product serial [] = none
requested_path vendor product serial (d ∷ ds) =
    if is_requested vendor product serial d then d.path else requested_path vendor product serial ds

-- No serial number is asked for, or the record has one.
abbrev IsComparable : Option Wide → DeviceInfo → Type 0
IsComparable serial d = (serial ≡ none) ⊎ (d.serial_number ≢ none)

-- The outcome of opening the path found.
abbrev opening : (Bytes → Opening) → Option Bytes → Option Device × Option GlobalError
opening kernel none = (none, some not_found)
opening kernel (some path) = hid_open_path (kernel path)

abbrev if_listed {ℓ} : {A : Type ℓ} → List DeviceInfo → A → A → A
if_listed [] absent found = absent
if_listed (d ∷ ds) absent found = found

serial_matches-serial_is :
    (serial : Option Wide) (d : DeviceInfo)
    → IsComparable serial d
    → serial_matches serial d.serial_number ≡ done (serial_is serial d.serial_number)
serial_matches-serial_is none d c = refl
serial_matches-serial_is (some want) d (inl e) = absurd (ground (arith, e))
serial_matches-serial_is (some want) d (inr n) = ground (arith, n)

path_to_open-requested_path :
    (vendor product : ℕ) (serial : Option Wide) (ds : List DeviceInfo)
    → All (IsComparable serial) ds
    → path_to_open vendor product serial ds ≡ done (requested_path vendor product serial ds)
unfolding path_to_open
path_to_open-requested_path vendor product serial [] a = refl
path_to_open-requested_path vendor product serial (d ∷ ds) a = ground (
  arith,
  serial_matches-serial_is serial d a.0,
  path_to_open-requested_path vendor product serial ds a.1,
)

-- Where a serial number is asked for and every listed record has one, or none is asked for: of the
-- records that an enumeration lists, `hid_open` opens the path of the first with the vendor, the
-- product and the serial number. Without such a record, or a path in it, the error is that none was
-- found; an enumeration that lists nothing leaves its own error.
pub hid_open-requested_path :
    (kernel : Bytes → Opening) (vendor product : ℕ) (serial : Option Wide) (ds : List DeviceInfo)
    (err : Option GlobalError)
    → All (IsComparable serial) ds
    → hid_open (done (ds, err)) kernel vendor product serial
      ≡ done (if_listed ds (none, err) (opening kernel (requested_path vendor product serial ds)))
unfolding hid_open
hid_open-requested_path kernel vendor product serial [] err a = refl
hid_open-requested_path kernel vendor product serial (d ∷ ds) err a =
    ground (arith, path_to_open-requested_path vendor product serial (d ∷ ds) a)
