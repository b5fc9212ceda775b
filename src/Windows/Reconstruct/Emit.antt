-- ===== src/Windows/Reconstruct/Emit.antt =====
-- The items that the last part of `hid_winapi_descriptor_reconstruct_pp_data` of
-- hidapi/windows/hidapi_descriptor_reconstruct.c writes for a collection, a delimiter or a capability.
-- The results of `rd_write_short_item` are not used there. An `int` has not overflowed.
use usb_hid_tool.Prelude.{ℕ, Bool, false, not, List, ◌==◌, if◌then◌else◌}
use usb_hid_tool.Prelude.Int.{ℤ, pos, minus_one, ◌+ℤ◌, ◌-ℤ◌, ◌==ℤ◌, rem, quot}
use usb_hid_tool.Run.{Run, done, ◌>>=◌}
use usb_hid_tool.Windows.Reconstruct.Items.{
  RdBuffer, RdItems, rd_write_short_item, rd_main_input, rd_main_output, rd_main_feature,
  rd_main_collection, rd_global_usage_page, rd_global_report_size, rd_global_report_id,
  rd_global_report_count, rd_local_usage, rd_local_usage_minimum, rd_local_usage_maximum,
  rd_local_designator_index, rd_local_designator_minimum, rd_local_designator_maximum,
  rd_local_string, rd_local_string_minimum, rd_local_string_maximum, rd_local_delimiter,
}
use usb_hid_tool.Windows.Reconstruct.Preparsed.{
  Cap, CollectionNode, RdMainItems, rd_input, rd_output, rd_feature, rd_collection,
  rd_collection_end, rd_delimiter_open, rd_delimiter_usage, rd_delimiter_close, RdMainItemNode,
  read_int,
}

-- The local variables of the loop, the buffer, and the capabilities, one field of which it changes.
pub record Encoder : Type 0 where
  pub caps : List Cap
  pub rpt_desc : RdBuffer
  pub last_report_id : ℕ
  pub last_usage_page : ℕ
  pub last_physical_min : ℤ
  pub last_physical_max : ℤ
  pub last_unit_exponent : ℕ
  pub last_unit : ℕ
  pub inhibit_write_of_usage : Bool
  pub report_count : ℤ

unfoldable pub emit : RdItems → ℤ → Encoder → Encoder
emit rd_item item_data e = record e {
  rpt_desc = (rd_write_short_item rd_item item_data e.rpt_desc).1;
}

abbrev pub emit_two : RdItems → ℕ → RdItems → ℕ → Encoder → Encoder
emit_two low a high b e = emit high (pos b) (emit low (pos a) e)

-- "Usage Page", unless it is the one written last.
unfoldable pub write_usage_page : ℕ → Encoder → Encoder
write_usage_page page e =
    if page == e.last_usage_page
    then e
    else record (emit rd_global_usage_page (pos page) e) { last_usage_page = page }

-- `if (inhibit_write_of_usage)`: only the next usage is left out.
unfoldable pub unless_inhibited : (Encoder → Encoder) → Encoder → Encoder
unless_inhibited write e =
    if e.inhibit_write_of_usage then record e { inhibit_write_of_usage = false } else write e

unfoldable pub write_collection : CollectionNode → Encoder → Encoder
write_collection node e = emit rd_main_collection (pos node.collection_type) (
    unless_inhibited (emit rd_local_usage (pos node.link_usage))
      (write_usage_page node.link_usage_page e))

-- The usages of a capability.
unfoldable pub write_usages : Cap → Encoder → Encoder
write_usages cap e =
    if cap.is_range
    then emit_two rd_local_usage_minimum cap.usage_min rd_local_usage_maximum cap.usage_max e
    else emit rd_local_usage (pos cap.usage_min) e

unfoldable pub write_delimiter_open : List CollectionNode → RdMainItemNode → Encoder → Run Encoder
write_delimiter_open nodes item e = do
  e' ←
      if not (item.collection_index ==ℤ minus_one)
      then (do
        node ← read_int nodes item.collection_index
        done (write_usage_page node.link_usage_page e))
      else if not (item.caps_index ==ℤ pos 0)
      then (do cap ← read_int e.caps item.caps_index; done (write_usage_page cap.usage_page e))
      else done e
  done (emit rd_local_delimiter (pos 1) e')

unfoldable pub write_collection_usage : List CollectionNode → RdMainItemNode → Encoder → Run Encoder
write_collection_usage nodes item e =
    if not (item.collection_index ==ℤ minus_one)
    then (do
      node ← read_int nodes item.collection_index
      done (emit rd_local_usage (pos node.link_usage) e))
    else done e

unfoldable pub write_cap_usages : RdMainItemNode → Encoder → Run Encoder
write_cap_usages item e =
    if not (item.caps_index ==ℤ pos 0)
    then (do cap ← read_int e.caps item.caps_index; done (write_usages cap e))
    else done e

unfoldable pub write_delimiter_usage : List CollectionNode → RdMainItemNode → Encoder → Run Encoder
write_delimiter_usage nodes item e = do
  e' ← write_collection_usage nodes item e
  write_cap_usages item e'

-- An "Input", "Output" or "Feature" main item.
unfoldable pub write_main : RdMainItems → ℤ → Encoder → Encoder
write_main rd_input z e = emit rd_main_input z e
write_main rd_output z e = emit rd_main_output z e
write_main rd_feature z e = emit rd_main_feature z e
write_main rd_collection z e = e
write_main rd_collection_end z e = e
write_main rd_delimiter_open z e = e
write_main rd_delimiter_usage z e = e
write_main rd_delimiter_close z e = e

-- In whole bytes where the bits are.
unfoldable pub size_padding : ℤ → Encoder → Encoder
size_padding bits e =
    if rem bits 8 ==ℤ pos 0
    then emit rd_global_report_count (quot bits 8) (emit rd_global_report_size (pos 8) e)
    else emit rd_global_report_count (pos 1) (emit rd_global_report_size bits e)

unfoldable pub write_padding : RdMainItemNode → Encoder → Encoder
write_padding item e =
    record (write_main item.main_item_type (pos 0x03)
      (size_padding (item.last_bit -ℤ item.first_bit +ℤ pos 1) e)) { report_count = pos 0 }

-- "Report ID" and "Usage Page", where they change.
unfoldable pub write_report_id : ℕ → Encoder → Encoder
write_report_id id e =
    if e.last_report_id == id
    then e
    else record (emit rd_global_report_id (pos id) e) { last_report_id = id }

unfoldable pub write_changed : Cap → Encoder → Encoder
write_changed cap e = write_usage_page cap.usage_page (write_report_id cap.report_id e)

-- The designators and the strings of a capability.
unfoldable pub write_designators : Cap → Encoder → Encoder
write_designators cap e =
    if cap.is_designator_range
    then emit_two rd_local_designator_minimum cap.designator_min rd_local_designator_maximum
        cap.designator_max e
    else if not (cap.designator_min == 0)
    then emit rd_local_designator_index (pos cap.designator_min) e
    else e

unfoldable pub write_strings : Cap → Encoder → Encoder
write_strings cap e =
    if cap.is_string_range
    then emit_two rd_local_string_minimum cap.string_min rd_local_string_maximum cap.string_max e
    else if not (cap.string_min == 0)
    then emit rd_local_string (pos cap.string_min) e
    else e

-- The local items of a capability, in order.
unfoldable pub write_locals : Cap → Encoder → Encoder
write_locals cap e =
    write_strings cap (write_designators cap (unless_inhibited (write_usages cap) e))
