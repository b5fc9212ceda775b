-- ===== src/Linux/DeviceInfo/Total.antt =====
-- The records of a node: the loop over usage pairs ends, and its records differ in the pair alone.
use usb_hid_tool.Prelude.{
  ℕ, ◌^◌, ◌<◌, ◌≡◌, inl, inr, refl, ap, ◌∙◌, List, [], ◌∷◌, Option, none, some, arith, Bool-cases,
  length, Option-cases,
}
use usb_hid_tool.Run.{Returns, Returns-mono, All}
use usb_hid_tool.Linux.Descriptor.Progress.{IsDescriptor}
use usb_hid_tool.Linux.Uevent.{Bytes, Info, parse_uevent_info}
use usb_hid_tool.Linux.DeviceInfo.{
  Wide, Bus, usb, usb_info, no_ids, DeviceInfo, Node, bus_of, bus_info, blank_info, usage_infos,
  infos_of_info, create_device_info_for_device,
}
use usb_hid_tool.Linux.DeviceInfo.Copies.{IsCopy, Alike, Describes, usage_infos-Describes}

-- The report descriptor of a node, if it can be read, is at most 2^31 bytes, and shorter than the
-- fuel.
abbrev pub DescriptorFits : ℕ → Option Bytes → Type 0
DescriptorFits fuel none = 0 < fuel
DescriptorFits fuel (some rpt) = IsDescriptor rpt (length rpt) × (length rpt < fuel)

abbrev descriptor_size : Option Bytes → ℕ
descriptor_size none = 0
descriptor_size (some rpt) = length rpt

infos-Describes :
    (fuel : ℕ) (descriptor : Option Bytes) (d : DeviceInfo)
    → DescriptorFits fuel descriptor
    → d.usage_page < 2 ^ 16
    → d.usage < 2 ^ 16
    → Returns (Describes (descriptor_size descriptor) d) (usage_infos fuel descriptor d)
infos-Describes fuel none d f p u =
    unfold usage_infos in
    ((record { same = refl; page_small = p; usage_small = u }, tt), ((p, u), (tt, omega arith)))
infos-Describes fuel (some rpt) d f p u = usage_infos-Describes rpt f.0 fuel d f.1 p u

module _ (mbstowcs : Bytes → Option Wide) where
  no_usage :
      (b : Bus) (node : Node) (i : Info)
      → let d = bus_info mbstowcs b node i (blank_info mbstowcs node i) in
        (d.usage_page ≡ 0) × (d.usage ≡ 0)
  unfolding bus_info blank_info usb_info
  no_usage usb node i = ground arith
  no_usage _ node i = (refl, refl)

  ids_kept :
      (b : Bus) (node : Node) (i : Info)
      → let d = bus_info mbstowcs b node i (blank_info mbstowcs node i) in
        (d.vendor_id ≡ i.ids.vendor_id) × (d.product_id ≡ i.ids.product_id)
  unfolding bus_info blank_info usb_info
  ids_kept usb node i = ground arith
  ids_kept _ node i = (refl, refl)

  -- All records of the node have the identifiers of `i`.
  abbrev Carry : ℕ → Info → List DeviceInfo → Type 0
  Carry n i l =
      All (λ e. (e.vendor_id ≡ i.ids.vendor_id) × (e.product_id ≡ i.ids.product_id)) l × Alike n l

  carried :
      (b : Bus) (node : Node) (i : Info) (l : List DeviceInfo)
      → All (IsCopy (bus_info mbstowcs b node i (blank_info mbstowcs node i))) l
      → All (λ e. (e.vendor_id ≡ i.ids.vendor_id) × (e.product_id ≡ i.ids.product_id)) l
  carried b node i [] a = tt
  carried b node i (e ∷ l) a = (
    (
      ap (λ (d : DeviceInfo). d.vendor_id) a.0.same ∙ (ids_kept b node i).0,
      ap (λ (d : DeviceInfo). d.product_id) a.0.same ∙ (ids_kept b node i).1,
    ),
    carried b node i l a.1,
  )

  pub infos_of_info-Carry :
      (fuel : ℕ) (node : Node) (i : Info)
      → DescriptorFits fuel node.report_descriptor
      → Returns
          (Carry (descriptor_size node.report_descriptor) i)
          (infos_of_info mbstowcs fuel node i)
  unfolding infos_of_info
  infos_of_info-Carry fuel node i f = elim (Option-cases (bus_of i.ids.bus_type)) [
    | inl e ↦ rw (e, infos_of_info) (tt, tt)
    | inr (b, e) ↦
        rw (e, infos_of_info)
          (let d : DeviceInfo = bus_info mbstowcs b node i (blank_info mbstowcs node i) in
            Returns-mono (usage_infos fuel node.report_descriptor d)
              (λ l g. (carried b node i l g.0, g.1))
              (infos-Describes fuel node.report_descriptor d f (omega (arith, no_usage b node i))
                (omega (arith, no_usage b node i))))
  ]

  -- With more fuel than the report descriptor has bytes, `create_device_info_for_device` returns
  -- and reads no byte outside the descriptor. The records after the first differ from it in their
  -- usage pair alone, each pair is 16 bits wide, and there are at most as many as the descriptor
  -- has bytes.
  pub create_device_info_for_device-Alike :
      (fuel : ℕ) (node : Node)
      → DescriptorFits fuel node.report_descriptor
      → Returns
          (Alike (descriptor_size node.report_descriptor))
          (create_device_info_for_device mbstowcs fuel node)
  unfolding create_device_info_for_device
  create_device_info_for_device-Alike fuel node f = elim (Option-cases node.hid_uevent) [
    | inl e ↦ rw (e, create_device_info_for_device) tt
    | inr (u, e) ↦ elim (Bool-cases (parse_uevent_info u no_ids).1) [
      | inl whole ↦
          rw (e, create_device_info_for_device)
            (rw whole (
              Returns-mono (infos_of_info mbstowcs fuel node (parse_uevent_info u no_ids).0)
                (λ l g. g.1) (infos_of_info-Carry fuel node (parse_uevent_info u no_ids).0 f)))
      | inr part ↦ rw (e, create_device_info_for_device) (rw part tt)
    ]
  ]
