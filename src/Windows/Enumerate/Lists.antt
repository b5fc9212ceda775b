-- ===== src/Windows/Enumerate/Lists.antt =====
-- What `hid_enumerate` of hidapi/windows/hid.c lists, and what it leaves open.
use usb_hid_tool.Prelude.{
  ℕ, ◌≡◌, ◌≢◌, ◌↔◌, ◌⊎◌, refl, Bool, true, false, ◌&&◌, List, [], ◌∷◌, none, ◌==◌, if◌then◌else◌,
  Bool-cases, Option-cases, inl, inr, arith,
}
use usb_hid_tool.Run.{done, Returns, Returns-bind, All, All-append}
use usb_hid_tool.Windows.DevNode.{Wide, DeviceInfo, Windows}
use usb_hid_tool.Windows.DeviceInfo.Ids.{device_info_of-ids}
use usb_hid_tool.Windows.Enumerate.{
  hid_init, ListAnswer, size_refused, too_small, list_refused, listed, interface_list, accepts,
  enumerate_list, hid_enumerate,
}
use usb_hid_tool.Windows.State.{
  GlobalError, State, with_global_error, no_devices, no_matching, init_failed, list_size_failed,
  list_failed,
}
use usb_hid_tool.Windows.Enumerate.Records.{
  record_of, records_of, enumerate_interfaces-records_of, enumerated, cleared,
}

-- What was asked for: 0 asks for any.
abbrev IsWanted : ℕ → ℕ → DeviceInfo → Type 0
IsWanted vendor_id product_id d =
    ((vendor_id ≡ 0) ⊎ (d.vendor_id ≡ vendor_id)) × ((product_id ≡ 0) ⊎ (d.product_id ≡ product_id))

accepts-or : (want have : ℕ) → accepts want have ≡ true → (want ≡ 0) ⊎ (have ≡ want)
accepts-or want have h = ground (arith, h)

accepts_both : (a b : Bool) → (a && b) ≡ true → (a ≡ true) × (b ≡ true)
accepts_both a b h = ground (arith, h)

record_of-IsWanted :
    (os : Windows) (vendor_id product_id : ℕ) (interface : Wide)
    → All (IsWanted vendor_id product_id) (record_of os vendor_id product_id interface)
record_of-IsWanted os v p i = elim (Option-cases (os.create_file i false)) [
  | inl e ↦ rw (e, All) tt
  | inr (handle, e) ↦ elim (Option-cases (os.get_attributes handle)) [
    | inl k ↦ rw (e, All) (rw (k, All) tt)
    | inr (a, k) ↦ elim (Bool-cases (accepts v a.vendor_id && accepts p a.product_id)) [
      | inl t ↦
          let ids = device_info_of-ids os i handle a k in
          let both = accepts_both (accepts v a.vendor_id) (accepts p a.product_id) t in
          rw (e, All)
            (rw (k, All)
              (rw (t, All)
                (
                  (
                    rw ids.0 (accepts-or v a.vendor_id both.0),
                    rw ids.1 (accepts-or p a.product_id both.1),
                  ),
                  tt,
                )))
      | inr t ↦ rw (e, All) (rw (k, All) (rw (t, All) tt))
    ]
  ]
]

records_of-IsWanted :
    (os : Windows) (vendor_id product_id : ℕ) (interfaces : List Wide)
    → All (IsWanted vendor_id product_id) (records_of os vendor_id product_id interfaces)
records_of-IsWanted os v p [] = tt
records_of-IsWanted os v p (i ∷ is) =
    All-append (IsWanted v p) (record_of os v p i) (records_of os v p is)
      (record_of-IsWanted os v p i) (records_of-IsWanted os v p is)

-- What `hid_enumerate` promises: records that were asked for, nothing left open, and an error exactly
-- without a record.
abbrev pub IsEnumeration : ℕ → ℕ → State → List DeviceInfo × State → Type 0
IsEnumeration vendor_id product_id s (found, s') =
    All (IsWanted vendor_id product_id) found
    × (s'.open_handles ≡ s.open_handles)
    × (s'.open_events ≡ s.open_events)
    × (s'.open_preparsed ≡ s.open_preparsed)
    × ((s'.global_error ≡ none) ↔ (found ≢ []))

-- An answer that ends the loop.
abbrev pub Answered : List ListAnswer → Type 0
Answered [] = ⊥
Answered (size_refused ∷ rest) = Unit
Answered (too_small ∷ rest) = Answered rest
Answered (list_refused ∷ rest) = Unit
Answered (listed interfaces ∷ rest) = Unit

some_error :
    (v p : ℕ) (s : State) (e : GlobalError) → IsEnumeration v p s ([], with_global_error s e)
some_error v p s e = ground arith

enumerated-IsEnumeration :
    (v p : ℕ) (s : State) (found : List DeviceInfo)
    → All (IsWanted v p) found
    → s.global_error ≡ none
    → IsEnumeration v p s (enumerated v p found s)
enumerated-IsEnumeration v p s [] h e =
    some_error v p s (if v == 0 && p == 0 then no_devices else no_matching)
enumerated-IsEnumeration v p s (d ∷ ds) h e = (h, refl, refl, refl, ground (arith, e))

list_records :
    (os : Windows) (v p : ℕ) (answers : List ListAnswer) (s : State)
    → Answered answers
    → s.global_error ≡ none
    → Returns (λ list. IsEnumeration v p s (enumerate_list os v p list)) (interface_list answers s)
unfolding interface_list enumerate_list
list_records os v p [] s h e = h
list_records os v p (size_refused ∷ rest) s h e = some_error v p s list_size_failed
list_records os v p (too_small ∷ rest) s h e = list_records os v p rest s h e
list_records os v p (list_refused ∷ rest) s h e = some_error v p s list_failed
list_records os v p (listed interfaces ∷ rest) s h e =
    rw (enumerate_interfaces-records_of os v p interfaces [] s) (
      enumerated-IsEnumeration v p s (records_of os v p interfaces)
        (records_of-IsWanted os v p interfaces) e)

pub hid_enumerate-IsEnumeration :
    (os : Windows) (resolved : Bool) (answers : List ListAnswer) (vendor_id product_id : ℕ)
    (s : State)
    → Answered answers
    → Returns
        (IsEnumeration vendor_id product_id s)
        (hid_enumerate os resolved answers vendor_id product_id s)
unfolding hid_enumerate hid_init
hid_enumerate-IsEnumeration os false answers v p s h = some_error v p s init_failed
hid_enumerate-IsEnumeration os true answers v p s h =
    Returns-bind (λ list. IsEnumeration v p s (enumerate_list os v p list)) (IsEnumeration v p s)
      (interface_list answers (cleared s)) (λ list. done (enumerate_list os v p list))
      (list_records os v p answers (cleared s) h refl) (λ list _ k. k)
