-- ===== src/Windows/DeviceInfo/Ids.antt =====
-- `hid_internal_get_device_info` gives the identifiers of the attributes, whatever the bus adds.
use usb_hid_tool.Prelude.{
  ℕ, ◌≡◌, refl, ◌∙◌, Bool, true, false, List, [], ◌∷◌, Option, none, some, not, ◌&&◌, ◌==◌,
  if◌then◌else◌, map,
}
use usb_hid_tool.Prelude.Int.{pos, minus_one, ◌==ℤ◌}
use usb_hid_tool.Windows.DevNode.{
  Wide, DeviceInfo, Attributes, Windows, Bus, unknown, usb, bluetooth, i2c, spi, virtual,
  instance_id, hardware_ids, token_rev, token_mi, hid_internal_extract_int_token_value,
}
use usb_hid_tool.Windows.DeviceInfo.{
  BusType, hardware_id_info, hardware_ids_info, single_interface, instance_serial, usb_serial,
  usb_node_info, hid_internal_get_usb_info, hid_internal_get_ble_info, bus_info, plain_info,
  device_info_of, hid_internal_detect_bus_type, hid_internal_towupper, text, texts, ushort,
  serial_of_instance, is_empty,
}

record SameIds (d d' : DeviceInfo) : Type 0 where
  vendor : d'.vendor_id ≡ d.vendor_id
  product : d'.product_id ≡ d.product_id

SameIds-refl : (d : DeviceInfo) → SameIds d d
SameIds-refl d = record { vendor = refl; product = refl }

SameIds-trans : (a b c : DeviceInfo) → SameIds a b → SameIds b c → SameIds a c
SameIds-trans a b c h k = record { vendor = k.vendor ∙ h.vendor; product = k.product ∙ h.product }

SameIds-if :
    (t : Bool) (d x y : DeviceInfo) → SameIds d x → SameIds d y → SameIds d (if t then x else y)
SameIds-if true d x y h k = h
SameIds-if false d x y h k = k

hardware_id_info-SameIds : (id : Wide) (d : DeviceInfo) → SameIds d (hardware_id_info id d)
unfolding hardware_id_info
hardware_id_info-SameIds id d =
    let release = hid_internal_extract_int_token_value id token_rev in
    let interface = hid_internal_extract_int_token_value id token_mi in
    let t = d.release_number == 0 && not (release ==ℤ minus_one) in
    let released : DeviceInfo = if t then record d { release_number = ushort release } else d in
    let first : SameIds d released =
      SameIds-if t d (record d { release_number = ushort release }) d
        (record { vendor = refl; product = refl }) (SameIds-refl d) in
    SameIds-if (d.interface_number ==ℤ minus_one && not (interface ==ℤ minus_one)) d
      (record released { interface_number = interface }) released
      (record { vendor = first.vendor; product = first.product }) first

hardware_ids_info-SameIds : (ids : List Wide) (d : DeviceInfo) → SameIds d (hardware_ids_info ids d)
unfolding hardware_ids_info
hardware_ids_info-SameIds [] d = SameIds-refl d
hardware_ids_info-SameIds (id ∷ ids) d =
    SameIds-trans d (hardware_id_info id d) (hardware_ids_info ids (hardware_id_info id d))
      (hardware_id_info-SameIds id d) (hardware_ids_info-SameIds ids (hardware_id_info id d))

single_interface-SameIds : (d x : DeviceInfo) → SameIds d x → SameIds d (single_interface x)
single_interface-SameIds d x h =
    SameIds-if (x.interface_number ==ℤ minus_one) d (record x { interface_number = pos 0 }) x
      (record { vendor = h.vendor; product = h.product }) h

SameIds-elim {κ} :
    {A : Type κ} (o : Option A) (d x : DeviceInfo) (f : A → DeviceInfo)
    → SameIds d x
    → ((a : A) → SameIds d (f a))
    → SameIds d (elim o [ none ↦ x | some a ↦ f a ])
SameIds-elim none d x f h k = h
SameIds-elim (some a) d x f h k = k a

module _ (os : Windows) where
  instance_serial-SameIds :
      (node : ℕ) (d x : DeviceInfo) → SameIds d x → SameIds d (instance_serial os node x)
  unfolding instance_serial
  instance_serial-SameIds node d x h = SameIds-elim (text os node instance_id) d x _ h (λ id.
      SameIds-elim (serial_of_instance id) d (single_interface x) _ (single_interface-SameIds d x h)
        (λ serial.
          single_interface-SameIds d (record x { serial_number = serial })
            (record { vendor = h.vendor; product = h.product })))

  usb_serial-SameIds :
      (node : ℕ) (d x : DeviceInfo) → SameIds d x → SameIds d (usb_serial os node x)
  unfolding usb_serial
  usb_serial-SameIds node d x h =
      SameIds-if (not (is_empty x.serial_number)) d (single_interface x) _
        (single_interface-SameIds d x h)
        (SameIds-if (x.interface_number ==ℤ minus_one) d (instance_serial os node x) _
          (instance_serial-SameIds node d x h)
          (SameIds-elim (os.get_parent node) d x _ h
            (λ parent. instance_serial-SameIds parent d x h)))

  usb_node_info-SameIds : (node : ℕ) (d : DeviceInfo) → SameIds d (usb_node_info os node d)
  unfolding usb_node_info
  usb_node_info-SameIds node d =
      SameIds-elim (texts os node hardware_ids) d d _ (SameIds-refl d) (λ ids.
        let h = hardware_ids_info-SameIds (map (hid_internal_towupper os) ids) d in
        usb_serial-SameIds node d _ (record { vendor = h.vendor; product = h.product }))

  hid_internal_get_usb_info-SameIds :
      (node : ℕ) (d : DeviceInfo) → SameIds d (hid_internal_get_usb_info os d node)
  unfolding hid_internal_get_usb_info
  hid_internal_get_usb_info-SameIds node d =
      SameIds-elim (text os node instance_id) d d _ (SameIds-refl d) (λ id.
        SameIds-if _ d _ _ (usb_node_info-SameIds node d) (
          SameIds-elim (os.get_parent node) d d _ (SameIds-refl d)
            (λ parent. usb_node_info-SameIds parent d)))

  bus_info-SameIds :
      (b : BusType) (bus : Bus) (d : DeviceInfo) → b.bus_type ≡ bus → SameIds d (bus_info os b d)
  unfolding bus_info hid_internal_get_ble_info
  bus_info-SameIds b usb d e = rw e (hid_internal_get_usb_info-SameIds b.dev_node d)
  bus_info-SameIds b bluetooth d e =
      rw e (SameIds-if b.is_ble d _ d (record { vendor = refl; product = refl }) (SameIds-refl d))
  bus_info-SameIds b unknown d e = rw e (SameIds-refl d)
  bus_info-SameIds b i2c d e = rw e (SameIds-refl d)
  bus_info-SameIds b spi d e = rw e (SameIds-refl d)
  bus_info-SameIds b virtual d e = rw e (SameIds-refl d)

  -- The identifiers of the record are those of the attributes of the device.
  pub device_info_of-ids :
      (path : Wide) (handle : ℕ) (a : Attributes)
      → os.get_attributes handle ≡ some a
      → ((device_info_of os path handle).vendor_id ≡ a.vendor_id)
        × ((device_info_of os path handle).product_id ≡ a.product_id)
  unfolding device_info_of plain_info
  device_info_of-ids path handle a e =
      let b = hid_internal_detect_bus_type os path in
      let h = bus_info-SameIds b b.bus_type (plain_info os path handle b.bus_type) refl in
      (h.vendor ∙ rw e refl, h.product ∙ rw e refl)
