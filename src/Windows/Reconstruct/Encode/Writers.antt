-- ===== src/Windows/Reconstruct/Encode/Writers.antt =====
-- The functions that write the parts of an item, a node or a capability.
use usb_hid_tool.Prelude.{ℕ, ◌≡◌, refl, false, not, ◌==◌, inl}
use usb_hid_tool.Prelude.Int.{ℤ, pos, ◌+ℤ◌, ◌-ℤ◌}
use usb_hid_tool.Windows.Reconstruct.Items.{
  RdItems, ◌is◌, rd_local_designator_maximum, rd_local_designator_minimum, rd_local_string_maximum,
  rd_local_string_minimum, rd_local_usage, rd_local_usage_maximum, rd_local_usage_minimum,
  rd_main_collection_end, rd_local_delimiter,
}
use usb_hid_tool.Windows.Reconstruct.Preparsed.{
  Cap, CollectionNode, RdMainItems, RdMainItemNode, rd_input, rd_output, rd_feature, rd_collection,
  rd_collection_end, rd_delimiter_open, rd_delimiter_usage, rd_delimiter_close,
}
use usb_hid_tool.Windows.Reconstruct.Emit.{
  Encoder, emit, emit_two, size_padding, unless_inhibited, write_changed, write_collection,
  write_designators, write_locals, write_main, write_padding, write_report_id, write_strings,
  write_usage_page, write_usages,
}
use usb_hid_tool.Windows.Reconstruct.Encode.{
  clear_physical_max, clear_physical_min, clear_unit, clear_unit_exponent, write_button_field,
  write_button_range, write_physical, write_unit, write_unit_exponent, write_value_field,
  write_delimiter_close,
}
use usb_hid_tool.Windows.Reconstruct.Encode.Written.{
  Writes-same, IsWriter, Writes-refl, Writes-if, emit-IsWriter, Writes-emit, Writes-next,
}

emit_two-IsWriter :
    (low : RdItems) (a : ℕ) (high : RdItems) (b : ℕ)
    → (low is rd_main_collection_end) ≡ false
    → (high is rd_main_collection_end) ≡ false
    → IsWriter (emit_two low a high b)
emit_two-IsWriter low a high b h k e i = Writes-emit _ _ k (Writes-emit _ _ h (Writes-refl e i))

pub write_usage_page-IsWriter : (page : ℕ) → IsWriter (write_usage_page page)
unfolding write_usage_page
write_usage_page-IsWriter page e h =
    Writes-if (page == e.last_usage_page) e _ _ (Writes-refl e h)
      (Writes-same (Writes-emit _ _ refl (Writes-refl e h)) refl refl)

unless_inhibited-IsWriter : (f : Encoder → Encoder) → IsWriter f → IsWriter (unless_inhibited f)
unfolding unless_inhibited
unless_inhibited-IsWriter f w e h =
    Writes-if e.inhibit_write_of_usage e _ _ (Writes-same (Writes-refl e h) refl refl) (w e h)

pub write_collection-IsWriter : (node : CollectionNode) → IsWriter (write_collection node)
unfolding write_collection
write_collection-IsWriter node e h =
    let usage = emit rd_local_usage (pos node.link_usage) in
    Writes-emit _ _ refl (
      Writes-next (unless_inhibited usage)
        (unless_inhibited-IsWriter usage
          (emit-IsWriter rd_local_usage (pos node.link_usage) (inl refl)))
        (write_usage_page-IsWriter node.link_usage_page e h))

pub write_usages-IsWriter : (cap : Cap) → IsWriter (write_usages cap)
unfolding write_usages
write_usages-IsWriter cap e h =
    Writes-if cap.is_range e _ _
      (emit_two-IsWriter rd_local_usage_minimum cap.usage_min rd_local_usage_maximum cap.usage_max
        refl refl e h)
      (Writes-emit _ _ refl (Writes-refl e h))

write_main-IsWriter : (type : RdMainItems) (z : ℤ) → IsWriter (write_main type z)
unfolding write_main
write_main-IsWriter rd_input z e h = Writes-emit _ _ refl (Writes-refl e h)
write_main-IsWriter rd_output z e h = Writes-emit _ _ refl (Writes-refl e h)
write_main-IsWriter rd_feature z e h = Writes-emit _ _ refl (Writes-refl e h)
write_main-IsWriter rd_collection z e h = Writes-refl e h
write_main-IsWriter rd_collection_end z e h = Writes-refl e h
write_main-IsWriter rd_delimiter_open z e h = Writes-refl e h
write_main-IsWriter rd_delimiter_usage z e h = Writes-refl e h
write_main-IsWriter rd_delimiter_close z e h = Writes-refl e h

size_padding-IsWriter : (bits : ℤ) → IsWriter (size_padding bits)
unfolding size_padding
size_padding-IsWriter bits e h =
    Writes-if _ e _ _ (Writes-emit _ _ refl (Writes-emit _ _ refl (Writes-refl e h)))
      (Writes-emit _ _ refl (Writes-emit _ _ refl (Writes-refl e h)))

pub write_padding-IsWriter : (item : RdMainItemNode) → IsWriter (write_padding item)
unfolding write_padding
write_padding-IsWriter item e h =
    Writes-same
      (Writes-next (write_main item.main_item_type (pos 0x03))
        (write_main-IsWriter item.main_item_type (pos 0x03))
        (size_padding-IsWriter (item.last_bit -ℤ item.first_bit +ℤ pos 1) e h))
      refl refl

write_report_id-IsWriter : (id : ℕ) → IsWriter (write_report_id id)
unfolding write_report_id
write_report_id-IsWriter id e h =
    Writes-if (e.last_report_id == id) e _ _ (Writes-refl e h)
      (Writes-same (Writes-emit _ _ refl (Writes-refl e h)) refl refl)

pub write_changed-IsWriter : (cap : Cap) → IsWriter (write_changed cap)
unfolding write_changed
write_changed-IsWriter cap e h =
    Writes-next (write_usage_page cap.usage_page) (write_usage_page-IsWriter cap.usage_page)
      (write_report_id-IsWriter cap.report_id e h)

write_designators-IsWriter : (cap : Cap) → IsWriter (write_designators cap)
unfolding write_designators
write_designators-IsWriter cap e h =
    Writes-if cap.is_designator_range e _ _
      (emit_two-IsWriter rd_local_designator_minimum cap.designator_min rd_local_designator_maximum
        cap.designator_max refl refl e h)
      (Writes-if (not (cap.designator_min == 0)) e _ _ (Writes-emit _ _ refl (Writes-refl e h))
        (Writes-refl e h))

write_strings-IsWriter : (cap : Cap) → IsWriter (write_strings cap)
unfolding write_strings
write_strings-IsWriter cap e h =
    Writes-if cap.is_string_range e _ _
      (emit_two-IsWriter rd_local_string_minimum cap.string_min rd_local_string_maximum
        cap.string_max refl refl e h)
      (Writes-if (not (cap.string_min == 0)) e _ _ (Writes-emit _ _ refl (Writes-refl e h))
        (Writes-refl e h))

pub write_locals-IsWriter : (cap : Cap) → IsWriter (write_locals cap)
unfolding write_locals
write_locals-IsWriter cap e h = Writes-next (write_strings cap) (write_strings-IsWriter cap) (
    Writes-next (write_designators cap) (write_designators-IsWriter cap)
      (unless_inhibited-IsWriter (write_usages cap) (write_usages-IsWriter cap) e h))

clear_physical_min-IsWriter : IsWriter clear_physical_min
unfolding clear_physical_min
clear_physical_min-IsWriter e h =
    Writes-if _ e _ _ (Writes-refl e h)
      (Writes-emit _ _ refl (Writes-same (Writes-refl e h) refl refl))

clear_physical_max-IsWriter : IsWriter clear_physical_max
unfolding clear_physical_max
clear_physical_max-IsWriter e h =
    Writes-if _ e _ _ (Writes-refl e h)
      (Writes-emit _ _ refl (Writes-same (Writes-refl e h) refl refl))

clear_unit_exponent-IsWriter : IsWriter clear_unit_exponent
unfolding clear_unit_exponent
clear_unit_exponent-IsWriter e h =
    Writes-if _ e _ _ (Writes-refl e h)
      (Writes-emit _ _ refl (Writes-same (Writes-refl e h) refl refl))

clear_unit-IsWriter : IsWriter clear_unit
unfolding clear_unit
clear_unit-IsWriter e h =
    Writes-if _ e _ _ (Writes-refl e h)
      (Writes-emit _ _ refl (Writes-same (Writes-refl e h) refl refl))

write_button_range-IsWriter : (cap : Cap) → IsWriter (write_button_range cap)
unfolding write_button_range
write_button_range-IsWriter cap e h =
    Writes-if _ e _ _ (Writes-emit _ _ refl (Writes-emit _ _ refl (Writes-refl e h)))
      (Writes-emit _ _ refl (Writes-emit _ _ refl (Writes-refl e h)))

pub write_button_field-IsWriter :
    (cap : Cap) (item : RdMainItemNode) → IsWriter (write_button_field cap item)
unfolding write_button_field
write_button_field-IsWriter cap item e h =
    Writes-same
      (Writes-next (write_main item.main_item_type (pos cap.bit_field))
        (write_main-IsWriter item.main_item_type (pos cap.bit_field))
        (Writes-next clear_unit clear_unit-IsWriter (
          Writes-next clear_unit_exponent clear_unit_exponent-IsWriter (
            Writes-next clear_physical_max clear_physical_max-IsWriter (
              Writes-next clear_physical_min clear_physical_min-IsWriter (
                Writes-emit _ _ refl
                  (Writes-emit _ _ refl (write_button_range-IsWriter cap e h))))))))
      refl refl

write_physical-IsWriter : (cap : Cap) → IsWriter (write_physical cap)
unfolding write_physical
write_physical-IsWriter cap e h =
    Writes-if _ e _ _ (Writes-refl e h)
      (Writes-same (Writes-emit _ _ refl (Writes-emit _ _ refl (Writes-refl e h))) refl refl)

write_unit_exponent-IsWriter : (cap : Cap) → IsWriter (write_unit_exponent cap)
unfolding write_unit_exponent
write_unit_exponent-IsWriter cap e h =
    Writes-if _ e _ _ (Writes-refl e h)
      (Writes-same (Writes-emit _ _ refl (Writes-refl e h)) refl refl)

write_unit-IsWriter : (cap : Cap) → IsWriter (write_unit cap)
unfolding write_unit
write_unit-IsWriter cap e h =
    Writes-if _ e _ _ (Writes-refl e h)
      (Writes-same (Writes-emit _ _ refl (Writes-refl e h)) refl refl)

pub write_value_field-IsWriter :
    (cap : Cap) (item : RdMainItemNode) → IsWriter (write_value_field cap item)
unfolding write_value_field
write_value_field-IsWriter cap item e h =
    Writes-same
      (Writes-next (write_main item.main_item_type (pos cap.bit_field))
        (write_main-IsWriter item.main_item_type (pos cap.bit_field))
        (Writes-emit _ _ refl (
          Writes-emit _ _ refl (
            Writes-next (write_unit cap) (write_unit-IsWriter cap) (
              Writes-next (write_unit_exponent cap) (write_unit_exponent-IsWriter cap) (
                Writes-next (write_physical cap) (write_physical-IsWriter cap)
                  (Writes-emit _ _ refl (Writes-emit _ _ refl (Writes-refl e h)))))))))
      refl refl

pub write_delimiter_close-IsWriter : IsWriter write_delimiter_close
unfolding write_delimiter_close
write_delimiter_close-IsWriter e h =
    Writes-same (Writes-emit rd_local_delimiter (pos 0) refl (Writes-refl e h)) refl refl
