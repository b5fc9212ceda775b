-- ===== src/Linux/Enumerate/Filter.antt =====
-- `hid_enumerate` returns records of the requested devices.
use usb_hid_tool.Prelude.{ℕ, ◌≡◌, ◌⊎◌, true, List, [], ◌∷◌, ◌++◌, Option, some}
use usb_hid_tool.Run.{Run, done, All}
use usb_hid_tool.Linux.Uevent.{Bytes, Ids}
use usb_hid_tool.Linux.Uevent.Lines.{Uevent, IsUevent, text, ids_of}
use usb_hid_tool.Linux.DeviceInfo.{Wide, DeviceInfo, Node}
use usb_hid_tool.Linux.DeviceInfo.Total.{DescriptorFits}
use usb_hid_tool.Linux.Enumerate.{GlobalError, Entry, holds, wanted, infos_of_node}

-- The requested identifiers, 0 for any, are those of the record.
abbrev pub Matches : ℕ → ℕ → DeviceInfo → Type 0
Matches vendor product d =
    ((vendor ≡ 0) ⊎ (d.vendor_id ≡ vendor)) × ((product ≡ 0) ⊎ (d.product_id ≡ product))

-- Identifiers that are asked for: 0 asks for any.
abbrev pub Asked : ℕ → ℕ → Ids → Type 0
Asked vendor product i =
    ((vendor ≡ 0) ⊎ (i.vendor_id ≡ vendor)) × ((product ≡ 0) ⊎ (i.product_id ≡ product))

-- What the tests before a record decide, for an entry with these identifiers.
record Decides (vendor product : ℕ) (e : Entry) (i : Ids) (err : Option GlobalError) : Type 0 where
  same_error : (wanted vendor product e err).1 ≡ err
  named : (wanted vendor product e err).0 ≡ true → e.has_path ≡ true
  asked : (wanted vendor product e err).0 ≡ true → Asked vendor product i
  all_kept : e.has_path ≡ true → Asked vendor product i → (wanted vendor product e err).0 ≡ true

module _ (mbstowcs : Bytes → Option Wide) (fuel : ℕ) where
  -- The entry of a device: its `uevent` file and the attribute of its HID parent are the same text.
  pub record IsEntry (e : Entry) : Type 0 where
    pub uevent : Uevent
    pub node : Node
    pub well_formed : IsUevent uevent
    pub file_holds : e.uevent ≡ holds (text uevent)
    pub node_is : e.node ≡ some node
    pub attribute : node.hid_uevent ≡ some (some (text uevent))
    pub descriptor : DescriptorFits fuel node.report_descriptor

  -- The records of a well-formed entry have the identifiers that its `uevent` holds.
  HasIds : Uevent → DeviceInfo → Type 0
  HasIds u d = (d.vendor_id ≡ (ids_of u).vendor_id) × (d.product_id ≡ (ids_of u).product_id)

  -- The records of an entry: all of its node where it has a name and its identifiers are asked for,
  -- and none else.
  pub record Picked (vendor product : ℕ) (e : Entry) (i : Ids) (infos : List DeviceInfo)
      : Type 0 where
    pub kept :
        e.has_path ≡ true → Asked vendor product i → infos_of_node mbstowcs fuel e.node ≡ done infos
    pub dropped : (e.has_path ≡ true → Asked vendor product i → ⊥) → infos ≡ []

  -- The records of all entries, in their order.
  abbrev pub Lists : ℕ → ℕ → (es : List Entry) → All IsEntry es → List DeviceInfo → Type 0
  Lists vendor product [] a l = l ≡ []
  Lists vendor product (e ∷ es) a l =
      (infos : List DeviceInfo) × (rest : List DeviceInfo) × (l ≡ infos ++ rest)
      × Picked vendor product e (ids_of a.0.uevent) infos
      × Lists vendor product es a.1 rest

  -- What the loop returns: the records found before and those of the entries, which match, and the
  -- error it started with.
  abbrev Filtered :
      ℕ
      → ℕ
      → (es : List Entry) → All IsEntry es
      → List DeviceInfo
      → Option GlobalError
      → List DeviceInfo × Option GlobalError
      → Type 0
  Filtered vendor product es a found err r =
      All (Matches vendor product) r.0
      × (r.1 ≡ err)
      × (l : List DeviceInfo) × (r.0 ≡ found ++ l)
      × Lists vendor product es a l
