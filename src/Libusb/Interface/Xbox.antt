-- ===== src/Libusb/Interface/Xbox.antt =====
-- Which interfaces the libusb backend lists.
use usb_hid_tool.Prelude.{ℕ, ◌≡◌, ◌⊎◌, ◌↔◌, true, List, [], ◌∷◌, ◌==◌, arith, Bool-cases, inl, inr}
use usb_hid_tool.Libusb.Interface.{
  InterfaceDescriptor, is_supported, is_xbox360, is_xboxone, should_enumerate_interface,
  xbox360_vendors, xboxone_vendors,
}

-- A vendor stands in a table.
abbrev In : ℕ → List ℕ → Type 0
In v [] = ⊥
In v (x ∷ xs) = (v ≡ x) ⊎ In v xs

-- A vendor-specific interface of a wired (1) or wireless (129) Xbox 360 controller.
abbrev IsXbox360 : ℕ → InterfaceDescriptor → Type 0
IsXbox360 vendor d =
    (d.interface_class ≡ 255)
    × (d.interface_subclass ≡ 93)
    × ((d.interface_protocol ≡ 1) ⊎ (d.interface_protocol ≡ 129))
    × In vendor xbox360_vendors

-- The first interface of an Xbox One controller.
abbrev IsXboxOne : ℕ → InterfaceDescriptor → Type 0
IsXboxOne vendor d =
    (d.number ≡ 0)
    × (d.interface_class ≡ 255)
    × (d.interface_subclass ≡ 71)
    × (d.interface_protocol ≡ 208)
    × In vendor xboxone_vendors

is_supported-In : (v : ℕ) (xs : List ℕ) → is_supported v xs ≡ true → In v xs
unfolding is_supported
is_supported-In v [] h = absurd (ground arith)
is_supported-In v (x ∷ xs) h = elim (Bool-cases (v == x)) [
  | inl e ↦ inl (ground arith)
  | inr e ↦ inr (is_supported-In v xs (ground (arith, e)))
]

In-is_supported : (v : ℕ) (xs : List ℕ) → In v xs → is_supported v xs ≡ true
unfolding is_supported
In-is_supported v [] h = absurd h
In-is_supported v (x ∷ xs) (inl e) = ground (arith, e)
In-is_supported v (x ∷ xs) (inr h) = ground (arith, In-is_supported v xs h)

is_xbox360_sound : (v : ℕ) (d : InterfaceDescriptor) → is_xbox360 v d ≡ true → IsXbox360 v d
unfolding is_xbox360
is_xbox360_sound v d h = (
  ground (arith, h),
  ground (arith, h),
  ground (arith, h),
  is_supported-In v xbox360_vendors (ground (arith, h)),
)

is_xboxone_sound : (v : ℕ) (d : InterfaceDescriptor) → is_xboxone v d ≡ true → IsXboxOne v d
unfolding is_xboxone
is_xboxone_sound v d h = (
  ground (arith, h),
  ground (arith, h),
  ground (arith, h),
  ground (arith, h),
  is_supported-In v xboxone_vendors (ground (arith, h)),
)

is_xbox360_complete : (v : ℕ) (d : InterfaceDescriptor) → IsXbox360 v d → is_xbox360 v d ≡ true
unfolding is_xbox360
is_xbox360_complete v d x = ground (arith, x.0, x.1, x.2, In-is_supported v xbox360_vendors x.3)

is_xboxone_complete : (v : ℕ) (d : InterfaceDescriptor) → IsXboxOne v d → is_xboxone v d ≡ true
unfolding is_xboxone
is_xboxone_complete v d x =
    ground (arith, x.0, x.1, x.2, x.3, In-is_supported v xboxone_vendors x.4)

-- An interface is listed exactly when its class is HID (3), or it is a vendor-specific interface of
-- an Xbox 360 controller, or the first interface of an Xbox One controller, of a vendor in the table
-- for it.
should_enumerate_interface_iff :
    (v : ℕ) (d : InterfaceDescriptor)
    → (should_enumerate_interface v d ≡ true)
      ↔ ((d.interface_class ≡ 3) ⊎ (IsXbox360 v d ⊎ IsXboxOne v d))
unfolding should_enumerate_interface
should_enumerate_interface_iff v d = (sound, complete)
  where
    sound :
        should_enumerate_interface v d ≡ true
        → (d.interface_class ≡ 3) ⊎ (IsXbox360 v d ⊎ IsXboxOne v d)
    sound h = elim (Bool-cases (d.interface_class == 3)) [
      | inl e ↦ inl (ground arith)
      | inr e ↦ elim (Bool-cases (is_xbox360 v d)) [
        | inl f ↦ inr (inl (is_xbox360_sound v d f))
        | inr f ↦ inr (inr (is_xboxone_sound v d (ground (arith, h, e, f))))
      ]
    ]

    complete :
        (d.interface_class ≡ 3) ⊎ (IsXbox360 v d ⊎ IsXboxOne v d)
        → should_enumerate_interface v d ≡ true
    complete (inl e) = ground (arith, e)
    complete (inr (inl x)) = ground (arith, is_xbox360_complete v d x)
    complete (inr (inr x)) = ground (arith, is_xboxone_complete v d x)
