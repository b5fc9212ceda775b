-- ===== src/Windows/Enumerate/Open.antt =====
-- What `hid_open` and `hid_open_path` of hidapi/windows/hid.c open, and what they leave open.
use usb_hid_tool.Prelude.{
  ℕ, suc, ◌+◌, ◌-◌, ◌≡◌, ◌≢◌, refl, sym, ap, ◌∙◌, subst, Bool, true, false, ◌&&◌, List, [], ◌∷◌,
  ◌++◌, Option, none, some, ◌==◌, if◌then◌else◌, Bool-cases, Option-cases, inl, inr, arith,
  replicate,
}
use usb_hid_tool.Run.{Returns}
use usb_hid_tool.Linux.Uevent.{equal}
use usb_hid_tool.Windows.Transfers.{Bytes}
use usb_hid_tool.Windows.DevNode.{Wide, DeviceInfo, Caps, Windows}
use usb_hid_tool.Windows.DeviceInfo.{device_info_of, hid_internal_get_device_info, preparsed_read}
use usb_hid_tool.Windows.Enumerate.{
  hid_init, ListAnswer, too_small, listed, HidDevice, new_hid_device, open_any, open_handle,
  hid_open_path, path_to_open, open_found, hid_open_listed, hid_open,
}
use usb_hid_tool.Windows.State.{State, opened_handle, created_events, got_preparsed, not_found}
use usb_hid_tool.Windows.Enumerate.Records.{
  records_of, enumerated, cleared, preparsed_read-same, hid_enumerate-records_of,
}
use usb_hid_tool.Windows.Enumerate.Listing.{
  Lists, IsErrorOf, records_of-Lists, enumerated-IsListing,
}

-- A device that is open: one more handle and two more events than before, no error, the handle of the
-- path, and the lengths of its capabilities; or no device: nothing more is open, and an error. No
-- preparsed data is left.
abbrev pub IsOpening : Windows → State → Wide → Option HidDevice × State → Type 0
IsOpening os s path (some dev, s') =
    (s'.open_handles ≡ suc s.open_handles)
    × (s'.open_events ≡ 2 + s.open_events)
    × (s'.open_preparsed ≡ s.open_preparsed)
    × (s'.global_error ≡ none)
    × (open_any os path ≡ some dev.device_handle)
    × (dev.device_info ≡ device_info_of os path dev.device_handle)
    × (pp_data : ℕ) × (caps : Caps) × (os.get_preparsed_data dev.device_handle ≡ some pp_data)
    × (os.get_caps pp_data ≡ some caps)
    × (dev.transfers.output_report_length ≡ caps.output_report_byte_length)
    × (dev.transfers.input_report_length ≡ caps.input_report_byte_length)
    × (dev.transfers.feature_report_length ≡ caps.feature_report_byte_length)
IsOpening os s path (none, s') =
    (s'.open_handles ≡ s.open_handles)
    × (s'.open_events ≡ s.open_events)
    × (s'.open_preparsed ≡ s.open_preparsed)
    × (s'.global_error ≢ none)

open_handle-IsOpening :
    (os : Windows) (malloc : ℕ → Bytes) (path : Wide) (handle : ℕ) (s : State)
    → open_any os path ≡ some handle
    → IsOpening os s path
        (open_handle os malloc path handle (opened_handle (record s { global_error = none })))
unfolding open_handle new_hid_device hid_internal_get_device_info
open_handle-IsOpening os malloc path handle s o =
    elim (Bool-cases (os.set_num_input_buffers handle)) [
      | inl b ↦ elim (Option-cases (os.get_preparsed_data handle)) [
        | inl e ↦ rw (b, IsOpening) (rw (e, IsOpening) (omega arith, refl, refl, ground arith))
        | inr (pp, e) ↦ elim (Option-cases (os.get_caps pp)) [
          | inl k ↦
              rw (b, IsOpening)
                (rw (e, IsOpening)
                  (rw (k, IsOpening) (omega arith, refl, omega arith, ground arith)))
          | inr (caps, k) ↦
              rw (b, IsOpening)
                (rw (e, IsOpening)
                  (rw (k, IsOpening)
                    (
                      ap (λ (t : State). t.open_handles) (info_state handle s),
                      ap (λ (t : State). t.open_events) (info_state handle s),
                      ap (λ (t : State). t.open_preparsed - 1) (info_state handle s) ∙ omega arith,
                      ap (λ (t : State). t.global_error) (info_state handle s),
                      o,
                      refl,
                      pp,
                      caps,
                      e,
                      k,
                      refl,
                      refl,
                      refl,
                    )))
        ]
      ]
      | inr b ↦ rw (b, IsOpening) (omega arith, refl, refl, ground arith)
    ]
  where
    behind : State → State
    behind t = created_events (got_preparsed (opened_handle (cleared t)))

    info_state : (h : ℕ) (t : State) → preparsed_read os h (behind t) ≡ behind t
    info_state h t = preparsed_read-same os h (behind t)

-- The interface path of a UTF-8 path, or the empty one where it cannot be converted.
abbrev pub interface_path : Windows → Bytes → Wide
interface_path os path = elim (os.multi_byte_to_wide_char path) [ some w ↦ w | none ↦ [] ]

interface_path-some :
    (os : Windows) (path : Bytes) (w : Wide)
    → os.multi_byte_to_wide_char path ≡ some w
    → interface_path os path ≡ w
interface_path-some os path w e = rw (e, interface_path) refl

pub hid_open_path-IsOpening :
    (os : Windows) (malloc : ℕ → Bytes) (resolved : Bool) (path : Bytes) (s : State)
    → IsOpening os s (interface_path os path) (hid_open_path os malloc resolved path s)
unfolding hid_open_path hid_init
hid_open_path-IsOpening os malloc false path s = (refl, refl, refl, ground arith)
hid_open_path-IsOpening os malloc true path s =
    elim (Option-cases (os.multi_byte_to_wide_char path)) [
      | inl e ↦ rw (e, IsOpening) (refl, refl, refl, ground arith)
      | inr (w, e) ↦ elim (Option-cases (open_any os w)) [
        | inl k ↦ rw (e, IsOpening) (rw (k, IsOpening) (refl, refl, refl, ground arith))
        | inr (handle, k) ↦
            let start : State = record s { global_error = none } in
            let result : hid_open_path os malloc true path s
                ≡ open_handle os malloc w handle (opened_handle start) =
              rw e (rw k refl) in
            subst (IsOpening os s (interface_path os path)) (sym result) (
              subst (λ x. IsOpening os s x (open_handle os malloc w handle (opened_handle start)))
                (sym (interface_path-some os path w e))
                (open_handle-IsOpening os malloc w handle s k))
      ]
    ]

-- A record of the device that is asked for; none asks for any serial number.
abbrev pub is_requested : ℕ → ℕ → Option Wide → DeviceInfo → Bool
is_requested vendor_id product_id none d = d.vendor_id == vendor_id && d.product_id == product_id
is_requested vendor_id product_id (some want) d =
    (d.vendor_id == vendor_id && d.product_id == product_id) && equal want d.serial_number

-- The path of the first record of that device.
abbrev pub requested_path : ℕ → ℕ → Option Wide → List DeviceInfo → Option Bytes
requested_path vendor_id product_id serial [] = none
requested_path vendor_id product_id serial (d ∷ ds) =
    if is_requested vendor_id product_id serial d
    then d.path
    else requested_path vendor_id product_id serial ds

path_to_open-requested_path :
    (os : Windows) (vendor_id product_id : ℕ) (serial : Option Wide) (ds : List DeviceInfo)
    → path_to_open os vendor_id product_id serial ds ≡ requested_path vendor_id product_id serial ds
unfolding path_to_open
path_to_open-requested_path os v p serial [] = refl
path_to_open-requested_path os v p none (d ∷ ds) =
    ground (arith, path_to_open-requested_path os v p none ds)
path_to_open-requested_path os v p (some want) (d ∷ ds) =
    ground (arith, path_to_open-requested_path os v p (some want) ds)

-- What `hid_open` does where the records are known.
abbrev IsOpenOf : Windows → (ℕ → Bytes) → State → Option Bytes → Option HidDevice × State → Type 0
IsOpenOf os malloc s none r = r ≡ (none, record s { global_error = some not_found })
IsOpenOf os malloc s (some path) r =
    r ≡ hid_open_path os malloc true path (record s { global_error = none })

abbrev IsOpened :
    Windows
    → (ℕ → Bytes)
    → ℕ
    → ℕ
    → Option Wide
    → State
    → List DeviceInfo
    → Option HidDevice × State
    → Type 0
IsOpened os malloc vendor_id product_id serial s [] (dev, s') =
    (dev ≡ none)
    × (s'.open_handles ≡ s.open_handles)
    × (s'.open_events ≡ s.open_events)
    × (s'.open_preparsed ≡ s.open_preparsed)
    × IsErrorOf vendor_id product_id [] s'.global_error
IsOpened os malloc vendor_id product_id serial s (d ∷ ds) r =
    IsOpenOf os malloc s (requested_path vendor_id product_id serial (d ∷ ds)) r

open_found-IsOpenOf :
    (os : Windows) (malloc : ℕ → Bytes) (s : State) (path : Option Bytes)
    → IsOpenOf os malloc s path (open_found os malloc true path (cleared s))
open_found-IsOpenOf os malloc s none = refl
open_found-IsOpenOf os malloc s (some path) = refl

listed-IsOpened :
    (os : Windows) (malloc : ℕ → Bytes) (v p : ℕ) (serial : Option Wide) (interfaces : List Wide)
    (s : State) (records : List DeviceInfo)
    → Lists os v p interfaces records
    → IsOpened os malloc v p serial s records
        (hid_open_listed os malloc true v p serial (enumerated v p records (cleared s)))
unfolding hid_open_listed
listed-IsOpened os malloc v p serial is s [] l =
    let e = enumerated-IsListing os v p is [] s l in (refl, e.1, e.2, e.3, e.4)
listed-IsOpened os malloc v p serial is s (d ∷ ds) l =
    subst
      (λ path.
        IsOpenOf os malloc s path
          (open_found os malloc true (path_to_open os v p serial (d ∷ ds)) (cleared s)))
      (path_to_open-requested_path os v p serial (d ∷ ds))
      (open_found-IsOpenOf os malloc s (path_to_open os v p serial (d ∷ ds)))

-- What `hid_open` does: it goes by records of the interfaces that are asked for.
abbrev pub IsOpen :
    Windows
    → (ℕ → Bytes)
    → ℕ
    → ℕ
    → Option Wide
    → List Wide
    → State
    → Option HidDevice × State
    → Type 0
IsOpen os malloc vendor_id product_id serial interfaces s r =
    (records : List DeviceInfo) × Lists os vendor_id product_id interfaces records
    × IsOpened os malloc vendor_id product_id serial s records r

-- Where the list of interfaces is got in the end, `hid_open` makes a record of each interface that is
-- asked for, and opens the path of the first record with exactly the vendor, the product and, if one is
-- asked for, the serial number. Without such a record, or a path in it, nothing is opened and the
-- global error is that the device was not found; without any record it says that there is no device, or
-- none with the identifiers where one is not 0.
pub hid_open-IsOpen :
    (os : Windows) (malloc : ℕ → Bytes) (vendor_id product_id n : ℕ) (serial : Option Wide)
    (interfaces : List Wide) (rest : List ListAnswer) (s : State)
    → Returns (IsOpen os malloc vendor_id product_id serial interfaces s) (
        hid_open os malloc true
          (replicate n too_small ++ (listed interfaces ∷ rest))
          vendor_id
          product_id
          serial
          s)
unfolding hid_open
hid_open-IsOpen os malloc v p n serial interfaces rest s =
    rw (hid_enumerate-records_of os v p n interfaces rest s) (
      records,
      records_of-Lists os v p interfaces,
      listed-IsOpened os malloc v p serial interfaces s records
          (records_of-Lists os v p interfaces),
    )
  where
    records : List DeviceInfo
    records = records_of os v p interfaces
