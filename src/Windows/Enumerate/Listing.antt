-- ===== src/Windows/Enumerate/Listing.antt =====
-- Which interfaces `hid_enumerate` of hidapi/windows/hid.c makes records of.
use usb_hid_tool.Prelude.{
  ℕ, ◌≡◌, ◌≢◌, ◌⊎◌, refl, sym, subst, true, false, ◌&&◌, List, [], ◌∷◌, ◌++◌, Option, none, some,
  Bool-cases, Option-cases, inl, inr, arith, replicate,
}
use usb_hid_tool.Run.{Returns}
use usb_hid_tool.Windows.State.{GlobalError, no_devices, no_matching, State}
use usb_hid_tool.Windows.DevNode.{Wide, DeviceInfo, Attributes, Windows}
use usb_hid_tool.Windows.DeviceInfo.{device_info_of}
use usb_hid_tool.Windows.Enumerate.{accepts, ListAnswer, too_small, listed, hid_enumerate}
use usb_hid_tool.Windows.Enumerate.Records.{
  record_of, records_of, enumerated, cleared, hid_enumerate-records_of,
}

-- Attributes that are asked for: 0 asks for any.
abbrev pub Asked : ℕ → ℕ → Attributes → Type 0
Asked vendor_id product_id a =
    ((vendor_id ≡ 0) ⊎ (a.vendor_id ≡ vendor_id)) × ((product_id ≡ 0) ⊎ (a.product_id ≡ product_id))

-- An interface that opens and tells attributes that are asked for, and its record.
pub record IsRecordOf (os : Windows) (vendor_id product_id : ℕ) (interface : Wide) (d : DeviceInfo)
    : Type 0 where
  pub handle : ℕ
  pub attributes : Attributes
  pub opens : os.create_file interface false ≡ some handle
  pub tells : os.get_attributes handle ≡ some attributes
  pub asked : Asked vendor_id product_id attributes
  pub same : d ≡ device_info_of os interface handle

-- An interface that does not open, or does not tell attributes that are asked for.
abbrev IsSkipped : Windows → ℕ → ℕ → Wide → Type 0
IsSkipped os vendor_id product_id interface =
    (handle : ℕ) (a : Attributes)
    → os.create_file interface false ≡ some handle
    → os.get_attributes handle ≡ some a
    → Asked vendor_id product_id a
    → ⊥

-- Records of all the interfaces that are asked for and of no other, in order.
abbrev pub Lists : Windows → ℕ → ℕ → List Wide → List DeviceInfo → Type 0
Lists os vendor_id product_id [] [] = Unit
Lists os vendor_id product_id [] (d ∷ ds) = ⊥
Lists os vendor_id product_id (i ∷ is) [] =
    IsSkipped os vendor_id product_id i × Lists os vendor_id product_id is []
Lists os vendor_id product_id (i ∷ is) (d ∷ ds) =
    (IsSkipped os vendor_id product_id i × Lists os vendor_id product_id is (d ∷ ds))
    ⊎ (IsRecordOf os vendor_id product_id i d × Lists os vendor_id product_id is ds)

-- The global error behind an enumeration that makes these records.
abbrev pub IsErrorOf : ℕ → ℕ → List DeviceInfo → Option GlobalError → Type 0
IsErrorOf vendor_id product_id [] e =
    ((vendor_id ≡ 0) × (product_id ≡ 0) × (e ≡ some no_devices))
    ⊎ (((vendor_id ≢ 0) ⊎ (product_id ≢ 0)) × (e ≡ some no_matching))
IsErrorOf vendor_id product_id (d ∷ ds) e = e ≡ none

-- What an enumeration of these interfaces does.
abbrev pub IsListing : Windows → ℕ → ℕ → List Wide → State → List DeviceInfo × State → Type 0
IsListing os vendor_id product_id interfaces s (found, s') =
    Lists os vendor_id product_id interfaces found
    × (s'.open_handles ≡ s.open_handles)
    × (s'.open_events ≡ s.open_events)
    × (s'.open_preparsed ≡ s.open_preparsed)
    × IsErrorOf vendor_id product_id found s'.global_error

accepts-Asked :
    (v p : ℕ) (a : Attributes)
    → (accepts v a.vendor_id && accepts p a.product_id) ≡ true
    → Asked v p a
accepts-Asked v p a h = (ground (arith, h), ground (arith, h))

Asked-accepts :
    (v p : ℕ) (a : Attributes)
    → (accepts v a.vendor_id && accepts p a.product_id) ≡ false
    → Asked v p a
    → ⊥
Asked-accepts v p a h k = ground (arith, h, k)

-- What stands behind an interface in the records.
Makes : Windows → ℕ → ℕ → Wide → List DeviceInfo → Type 0
Makes os v p i [] = IsSkipped os v p i
Makes os v p i (d ∷ ds) = IsRecordOf os v p i d × (ds ≡ [])

create_file-IsSkipped :
    (os : Windows) (v p : ℕ) (i : Wide) → os.create_file i false ≡ none → IsSkipped os v p i
create_file-IsSkipped os v p i e handle a o t k = ground (arith, e, o)

get_attributes-IsSkipped :
    (os : Windows) (v p : ℕ) (i : Wide) (h : ℕ)
    → os.create_file i false ≡ some h
    → os.get_attributes h ≡ none
    → IsSkipped os v p i
get_attributes-IsSkipped os v p i h e n handle a o t k = ground (arith, e, n, o, t)

accepts-IsSkipped :
    (os : Windows) (v p : ℕ) (i : Wide) (h : ℕ) (b : Attributes)
    → os.create_file i false ≡ some h
    → os.get_attributes h ≡ some b
    → (accepts v b.vendor_id && accepts p b.product_id) ≡ false
    → IsSkipped os v p i
accepts-IsSkipped os v p i h b e n f handle a o t k = ground (arith, e, n, f, o, t, k)

record_of-Makes : (os : Windows) (v p : ℕ) (i : Wide) → Makes os v p i (record_of os v p i)
unfolding Makes
record_of-Makes os v p i = elim (Option-cases (os.create_file i false)) [
  | inl e ↦ rw (e, record_of) (create_file-IsSkipped os v p i e)
  | inr (h, e) ↦ elim (Option-cases (os.get_attributes h)) [
    | inl n ↦ rw (e, record_of) (rw (n, record_of) (get_attributes-IsSkipped os v p i h e n))
    | inr (a, n) ↦ elim (Bool-cases (accepts v a.vendor_id && accepts p a.product_id)) [
      | inl t ↦
          rw (e, record_of)
            (rw (n, record_of)
              (rw (t, record_of)
                (
                  record {
                    handle = h;
                    attributes = a;
                    opens = e;
                    tells = n;
                    asked = accepts-Asked v p a t;
                    same = refl;
                  },
                  refl,
                )))
      | inr f ↦
          rw (e, record_of)
            (rw (n, record_of) (rw (f, record_of) (accepts-IsSkipped os v p i h a e n f)))
    ]
  ]
]

skip-Lists :
    (os : Windows) (v p : ℕ) (i : Wide) (is : List Wide) (ds : List DeviceInfo)
    → IsSkipped os v p i
    → Lists os v p is ds
    → Lists os v p (i ∷ is) ds
skip-Lists os v p i is [] k l = (k, l)
skip-Lists os v p i is (d ∷ ds) k l = inl (k, l)

Makes-Lists :
    (os : Windows) (v p : ℕ) (i : Wide) (is : List Wide) (made ds : List DeviceInfo)
    → Makes os v p i made
    → Lists os v p is ds
    → Lists os v p (i ∷ is) (made ++ ds)
unfolding Makes
Makes-Lists os v p i is [] ds m l = skip-Lists os v p i is ds m l
Makes-Lists os v p i is (d ∷ more) ds m l =
    inr (m.0, subst (λ x. Lists os v p is (x ++ ds)) (sym m.1) l)

pub records_of-Lists :
    (os : Windows) (v p : ℕ) (interfaces : List Wide)
    → Lists os v p interfaces (records_of os v p interfaces)
records_of-Lists os v p [] = tt
records_of-Lists os v p (i ∷ is) =
    Makes-Lists os v p i is (record_of os v p i) (records_of os v p is) (record_of-Makes os v p i)
      (records_of-Lists os v p is)

pub enumerated-IsListing :
    (os : Windows) (v p : ℕ) (interfaces : List Wide) (found : List DeviceInfo) (s : State)
    → Lists os v p interfaces found
    → IsListing os v p interfaces s (enumerated v p found (cleared s))
enumerated-IsListing os v p is [] s l = (l, refl, refl, refl, ground arith)
enumerated-IsListing os v p is (d ∷ ds) s l = (l, refl, refl, refl, refl)

-- However often the list of interfaces has grown before it is got, `hid_enumerate` makes a record of
-- each interface that opens, tells its attributes and has the vendor and the product asked for (0 asks
-- for any), in order, and no other. As many handles, events and preparsed data are open as before. The
-- global error is cleared, or without a record says that there is no device, or none with those
-- identifiers where one is asked for.
pub hid_enumerate-IsListing :
    (os : Windows) (vendor_id product_id n : ℕ) (interfaces : List Wide) (rest : List ListAnswer)
    (s : State)
    → Returns (IsListing os vendor_id product_id interfaces s) (
        hid_enumerate os true
          (replicate n too_small ++ (listed interfaces ∷ rest))
          vendor_id
          product_id
          s)
hid_enumerate-IsListing os v p n interfaces rest s =
    rw (hid_enumerate-records_of os v p n interfaces rest s) (
      enumerated-IsListing os v p interfaces (records_of os v p interfaces) s
        (records_of-Lists os v p interfaces))
