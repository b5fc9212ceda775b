-- ===== src/Windows/Enumerate/Records.antt =====
-- The records that `hid_enumerate` of hidapi/windows/hid.c makes.
use usb_hid_tool.Prelude.{
  ℕ, zero, suc, ◌-◌, ◌≡◌, refl, sym, ap, ap₂, ◌∙◌, true, false, ◌&&◌, List, [], ◌∷◌, ◌++◌, Option,
  none, some, if◌then◌else◌, Bool-cases, Option-cases, inl, inr, arith, replicate,
}
use usb_hid_tool.Run.{done, append_assoc}
use usb_hid_tool.Windows.Reconstruct.Items.Buffer.{append_nil}
use usb_hid_tool.Windows.DevNode.{Wide, DeviceInfo, Windows}
use usb_hid_tool.Windows.DeviceInfo.{preparsed_read, hid_internal_get_device_info, device_info_of}
use usb_hid_tool.Windows.State.{State, opened_handle, closed_handle}
use usb_hid_tool.Windows.Enumerate.{
  hid_init, ListAnswer, too_small, listed, interface_list, accepts, none_found, open_device,
  enumerate_interface, appended, enumerate_interfaces, enumerate_list, hid_enumerate,
}

-- The record that an interface stands for: it opens, tells its attributes, and they are wanted.
abbrev pub record_of : Windows → ℕ → ℕ → Wide → List DeviceInfo
record_of os vendor_id product_id interface = elim (os.create_file interface false) [
  | none ↦ []
  | some handle ↦ elim (os.get_attributes handle) [
    | none ↦ []
    | some a ↦
        if accepts vendor_id a.vendor_id && accepts product_id a.product_id
        then device_info_of os interface handle ∷ []
        else []
  ]
]

abbrev pub records_of : Windows → ℕ → ℕ → List Wide → List DeviceInfo
records_of os vendor_id product_id [] = []
records_of os vendor_id product_id (i ∷ is) =
    record_of os vendor_id product_id i ++ records_of os vendor_id product_id is

abbrev listed_once : Option DeviceInfo → List DeviceInfo
listed_once none = []
listed_once (some d) = d ∷ []

appended-listed_once :
    (os : Windows) (found : List DeviceInfo) (made : Option DeviceInfo) (rest : List DeviceInfo)
    → appended os found made ++ rest ≡ found ++ (listed_once made ++ rest)
appended-listed_once os found none rest = refl
appended-listed_once os found (some d) rest = append_assoc found (d ∷ []) rest

enumerate_interface-record_of :
    (os : Windows) (vendor_id product_id : ℕ) (interface : Wide) (s : State)
    → listed_once (enumerate_interface os vendor_id product_id interface s).0
      ≡ record_of os vendor_id product_id interface
unfolding enumerate_interface open_device hid_internal_get_device_info
enumerate_interface-record_of os v p i s = elim (Option-cases (os.create_file i false)) [
  | inl e ↦ rw (e, listed_once, record_of) refl
  | inr (handle, e) ↦ elim (Option-cases (os.get_attributes handle)) [
    | inl k ↦ rw (e, listed_once, record_of) (rw (k, listed_once, record_of) refl)
    | inr (a, k) ↦ elim (Bool-cases (accepts v a.vendor_id && accepts p a.product_id)) [
      | inl t ↦
          rw (e, listed_once, record_of)
            (rw (k, listed_once, record_of) (rw (t, listed_once, record_of) refl))
      | inr t ↦
          rw (e, listed_once, record_of)
            (rw (k, listed_once, record_of) (rw (t, listed_once, record_of) refl))
    ]
  ]
]

closed-opened : (s : State) → closed_handle (opened_handle s) ≡ s
closed-opened s = ap (λ n. record s { open_handles = n }) e
  where
    e : suc s.open_handles - 1 ≡ s.open_handles
    e = omega arith

-- Preparsed data that are got are freed.
pub preparsed_read-same : (os : Windows) (handle : ℕ) (s : State) → preparsed_read os handle s ≡ s
unfolding preparsed_read
preparsed_read-same os handle s = elim (Option-cases (os.get_preparsed_data handle)) [
  | inl e ↦ rw (e, preparsed_read) refl
  | inr (pp, e) ↦ rw (e, preparsed_read) (ap (λ n. record s { open_preparsed = n }) same)
]
  where
    same : suc s.open_preparsed - 1 ≡ s.open_preparsed
    same = omega arith

enumerate_interface-state :
    (os : Windows) (vendor_id product_id : ℕ) (interface : Wide) (s : State)
    → (enumerate_interface os vendor_id product_id interface s).1 ≡ s
unfolding enumerate_interface open_device hid_internal_get_device_info
enumerate_interface-state os v p i s = elim (Option-cases (os.create_file i false)) [
  | inl e ↦ rw (e, enumerate_interface) refl
  | inr (handle, e) ↦ elim (Option-cases (os.get_attributes handle)) [
    | inl k ↦ rw (e, enumerate_interface) (rw (k, enumerate_interface) (closed-opened s))
    | inr (a, k) ↦ elim (Bool-cases (accepts v a.vendor_id && accepts p a.product_id)) [
      | inl t ↦
          rw (e, enumerate_interface)
            (rw (k, enumerate_interface)
              (rw (t, enumerate_interface)
                (ap closed_handle (preparsed_read-same os handle (opened_handle s))
                  ∙ closed-opened s)))
      | inr t ↦
          rw (e, enumerate_interface)
            (rw (k, enumerate_interface) (rw (t, enumerate_interface) (closed-opened s)))
    ]
  ]
]

pub enumerate_interfaces-records_of :
    (os : Windows) (vendor_id product_id : ℕ) (interfaces : List Wide) (found : List DeviceInfo)
    (s : State)
    → enumerate_interfaces os vendor_id product_id interfaces found s
      ≡ (found ++ records_of os vendor_id product_id interfaces, s)
unfolding enumerate_interfaces
enumerate_interfaces-records_of os v p [] found s = ap (λ l. (l, s)) (sym (append_nil found))
enumerate_interfaces-records_of os v p (i ∷ is) found s =
    let made = (enumerate_interface os v p i s).0 in
    enumerate_interfaces-records_of os v p is (appended os found made)
      (enumerate_interface os v p i s).1
    ∙ ap₂ (λ l t. (l, t))
        (appended-listed_once os found made (records_of os v p is)
          ∙ ap (λ l. found ++ (l ++ records_of os v p is))
              (enumerate_interface-record_of os v p i s))
        (enumerate_interface-state os v p i s)

-- The state where the records are known.
abbrev pub enumerated : ℕ → ℕ → List DeviceInfo → State → List DeviceInfo × State
enumerated vendor_id product_id records s = (records, none_found vendor_id product_id records s)

abbrev pub cleared : State → State
cleared s = record s { global_error = none }

interface_list-too_small :
    (n : ℕ) (interfaces : List Wide) (rest : List ListAnswer) (s : State)
    → interface_list (replicate n too_small ++ (listed interfaces ∷ rest)) s
      ≡ done (some interfaces, s)
unfolding interface_list
interface_list-too_small zero interfaces rest s = refl
interface_list-too_small (suc n) interfaces rest s = interface_list-too_small n interfaces rest s

-- The records and the state, by the records of the interfaces.
pub hid_enumerate-records_of :
    (os : Windows) (vendor_id product_id n : ℕ) (interfaces : List Wide) (rest : List ListAnswer)
    (s : State)
    → hid_enumerate os true
        (replicate n too_small ++ (listed interfaces ∷ rest))
        vendor_id
        product_id
        s
      ≡ done (
          enumerated vendor_id product_id
            (records_of os vendor_id product_id interfaces)
            (cleared s))
unfolding hid_enumerate hid_init enumerate_list
hid_enumerate-records_of os v p n interfaces rest s =
    rw (interface_list-too_small n interfaces rest (cleared s)) (
      ap (λ (r : List DeviceInfo × State). done (enumerated v p r.0 r.1))
        (enumerate_interfaces-records_of os v p interfaces [] (cleared s)))
