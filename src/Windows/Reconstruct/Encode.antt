-- ===== src/Windows/Reconstruct/Encode.antt =====
-- The last part of `hid_winapi_descriptor_reconstruct_pp_data` of
-- hidapi/windows/hidapi_descriptor_reconstruct.c: the list of main items is written as a descriptor.
-- The results of `rd_write_short_item` are not used there. An `int` has not overflowed.
pub mod Written
pub mod Writers
pub mod Nodes
pub mod Descriptor
pub mod First
pub mod Usage
use usb_hid_tool.Prelude.{
  ℕ, ◌+◌, ◌-◌, ◌%◌, ◌^◌, Bool, true, false, not, ◌&&◌, ◌||◌, List, [], ◌∷◌, Option, none, some,
  ◌==◌, if◌then◌else◌, bit_and, set, length,
}
use usb_hid_tool.Prelude.Int.{ℤ, pos, minus_one, to_nat, ◌⊖◌, ◌+ℤ◌, ◌-ℤ◌, ◌==ℤ◌, rem, quot}
use usb_hid_tool.Run.{Run, done, ◌>>=◌, read}
use usb_hid_tool.Windows.Reconstruct.Items.{
  RdBuffer, RdItems, rd_write_short_item, rd_main_input, rd_main_output, rd_main_feature,
  rd_main_collection, rd_main_collection_end, rd_global_usage_page, rd_global_logical_minimum,
  rd_global_logical_maximum, rd_global_physical_minimum, rd_global_physical_maximum,
  rd_global_unit_exponent, rd_global_unit, rd_global_report_size, rd_global_report_id,
  rd_global_report_count, rd_global_push, rd_global_pop, rd_local_usage, rd_local_usage_minimum,
  rd_local_usage_maximum, rd_local_designator_index, rd_local_designator_minimum,
  rd_local_designator_maximum, rd_local_string, rd_local_string_minimum, rd_local_string_maximum,
  rd_local_delimiter,
}
use usb_hid_tool.Windows.Reconstruct.Preparsed.{
  Cap, CollectionNode, PreparsedData, RdMainItems, rd_input, rd_output, rd_feature, rd_collection,
  rd_collection_end, rd_delimiter_open, rd_delimiter_usage, rd_delimiter_close, ◌=m=◌, is_padding,
  is_cap, RdMainItemNode, read_int,
}
use usb_hid_tool.Windows.Reconstruct.Emit.{
  Encoder, emit, emit_two, write_usage_page, unless_inhibited, write_collection, write_usages,
  write_delimiter_open, write_collection_usage, write_cap_usages, write_delimiter_usage, write_main,
  size_padding, write_padding, write_report_id, write_changed, write_designators, write_strings,
  write_locals,
}

-- Whether the next node of the list is one of a capability, of the same type.
abbrev pub next_cap : List Cap → RdMainItemNode → Option RdMainItemNode → Run (Option Cap)
next_cap caps item none = done none
next_cap caps item (some next) =
    if next.main_item_type =m= item.main_item_type && is_cap next.type_of_node
    then (do cap ← read_int caps next.caps_index; done (some cap))
    else done none

-- Whether a button and the next one are written as one field.
abbrev pub joins_button : Cap → Option Cap → Bool
joins_button cap none = false
joins_button cap (some next) =
    next.is_button_cap
    && not cap.is_range
    && not next.is_range
    && next.usage_page == cap.usage_page
    && next.report_id == cap.report_id
    && next.bit_field == cap.bit_field

abbrev pub differs_first_bit : RdMainItemNode → Option RdMainItemNode → Bool
differs_first_bit item none = false
differs_first_bit item (some next) = not (next.first_bit ==ℤ item.first_bit)

abbrev pub add_report_count : ℤ → Encoder → Encoder
add_report_count n e = record e { report_count = e.report_count +ℤ n }

-- Buttons have no physical range and no unit.
unfoldable pub clear_physical_min : Encoder → Encoder
clear_physical_min e =
    if e.last_physical_min ==ℤ pos 0
    then e
    else emit rd_global_physical_minimum (pos 0) (record e { last_physical_min = pos 0 })

unfoldable pub clear_physical_max : Encoder → Encoder
clear_physical_max e =
    if e.last_physical_max ==ℤ pos 0
    then e
    else emit rd_global_physical_maximum (pos 0) (record e { last_physical_max = pos 0 })

unfoldable pub clear_unit_exponent : Encoder → Encoder
clear_unit_exponent e =
    if e.last_unit_exponent == 0
    then e
    else emit rd_global_unit_exponent (pos 0) (record e { last_unit_exponent = 0 })

unfoldable pub clear_unit : Encoder → Encoder
clear_unit e =
    if e.last_unit == 0 then e else emit rd_global_unit (pos 0) (record e { last_unit = 0 })

unfoldable pub write_button_range : Cap → Encoder → Encoder
write_button_range cap e =
    if cap.logical_min ==ℤ pos 0 && cap.logical_max ==ℤ pos 0
    then emit rd_global_logical_maximum (pos 1) (emit rd_global_logical_minimum (pos 0) e)
    else emit rd_global_logical_maximum cap.logical_max
        (emit rd_global_logical_minimum cap.logical_min e)

-- The global items and the main item of a button.
unfoldable pub write_button_field : Cap → RdMainItemNode → Encoder → Encoder
write_button_field cap item e =
    let count = if cap.is_range then pos 0 else e.report_count in
    let sized = emit rd_global_report_size (pos cap.report_size) (write_button_range cap e) in
    let counted = emit rd_global_report_count (pos cap.report_count +ℤ count) sized in
    let cleared =
      clear_unit (clear_unit_exponent (clear_physical_max (clear_physical_min counted))) in
    record (write_main item.main_item_type (pos cap.bit_field) cleared) { report_count = pos 0 }

unfoldable pub write_button : Cap → RdMainItemNode → Option RdMainItemNode → Encoder → Run Encoder
write_button cap item next e = do
  let ranged =
      if cap.is_range then add_report_count (cap.data_index_max ⊖ cap.data_index_min) e else e
  let e' = write_locals cap (write_changed cap ranged)
  following ← next_cap e'.caps item next
  done (
      if joins_button cap following
      then (if differs_first_bit item next then add_report_count (pos 1) e' else e')
      else write_button_field cap item e')

-- A value array: "Report Count" is overwritten, as a `USHORT`.
abbrev pub array_count : Cap → ℕ
array_count cap = (cap.data_index_max + 2 ^ 16 - cap.data_index_min + 1) % 2 ^ 16

unfoldable pub overwrite_count : Cap → ℤ → Encoder → Encoder
overwrite_count cap index e = if bit_and cap.bit_field 0x02 == 0x02 then e else record e {
  caps = set e.caps (to_nat index) (record cap { report_count = array_count cap });
}

-- Whether a value and the next one are written as one field.
abbrev pub joins_value : Cap → Option Cap → Bool
joins_value cap none = false
joins_value cap (some next) =
    not next.is_button_cap
    && not cap.is_range
    && not next.is_range
    && next.usage_page == cap.usage_page
    && next.logical_min ==ℤ cap.logical_min
    && next.logical_max ==ℤ cap.logical_max
    && next.physical_min ==ℤ cap.physical_min
    && next.physical_max ==ℤ cap.physical_max
    && next.units_exp == cap.units_exp
    && next.units == cap.units
    && next.report_size == cap.report_size
    && next.report_id == cap.report_id
    && next.bit_field == cap.bit_field
    && next.report_count == 1
    && cap.report_count == 1

unfoldable pub write_physical : Cap → Encoder → Encoder
write_physical cap e =
    if e.last_physical_min ==ℤ cap.physical_min && e.last_physical_max ==ℤ cap.physical_max
    then e
    else record (emit rd_global_physical_maximum cap.physical_max
        (emit rd_global_physical_minimum cap.physical_min e)) {
          last_physical_min = cap.physical_min;
          last_physical_max = cap.physical_max;
        }

unfoldable pub write_unit_exponent : Cap → Encoder → Encoder
write_unit_exponent cap e =
    if e.last_unit_exponent == cap.units_exp
    then e
    else record (emit rd_global_unit_exponent (pos cap.units_exp) e) {
      last_unit_exponent = cap.units_exp;
    }

unfoldable pub write_unit : Cap → Encoder → Encoder
write_unit cap e =
    if e.last_unit == cap.units
    then e
    else record (emit rd_global_unit (pos cap.units) e) { last_unit = cap.units }

-- The global items and the main item of a value.
unfoldable pub write_value_field : Cap → RdMainItemNode → Encoder → Encoder
write_value_field cap item e =
    let ranged =
      emit rd_global_logical_maximum cap.logical_max
        (emit rd_global_logical_minimum cap.logical_min e) in
    let united = write_unit cap (write_unit_exponent cap (write_physical cap ranged)) in
    let sized = emit rd_global_report_size (pos cap.report_size) united in
    let counted = emit rd_global_report_count (pos cap.report_count +ℤ sized.report_count) sized in
    record (write_main item.main_item_type (pos cap.bit_field) counted) { report_count = pos 0 }

-- The field of a value, unless the next one joins it.
unfoldable pub write_value_end : RdMainItemNode → Option RdMainItemNode → Encoder → Run Encoder
write_value_end item next e = do
  cap ← read_int e.caps item.caps_index
  following ← next_cap e.caps item next
  done (
      if joins_value cap following
      then add_report_count (pos 1) e
      else write_value_field cap item e)

unfoldable pub write_value : Cap → RdMainItemNode → Option RdMainItemNode → Encoder → Run Encoder
write_value cap item next e =
    write_value_end item next
      (overwrite_count cap item.caps_index (write_locals cap (write_changed cap e)))

-- A node that is no collection and no delimiter.
unfoldable pub write_field : RdMainItemNode → Option RdMainItemNode → Encoder → Run Encoder
write_field item next e = if is_padding item.type_of_node then done (write_padding item e) else (do
  cap ← read_int e.caps item.caps_index
  if cap.is_button_cap then write_button cap item next e else write_value cap item next e)

unfoldable pub write_delimiter_close : Encoder → Encoder
write_delimiter_close e = record (emit rd_local_delimiter (pos 0) e) {
  inhibit_write_of_usage = true;
}

-- One round of the loop, on a node and the one behind it.
unfoldable pub write_node :
    List CollectionNode → RdMainItemNode → Option RdMainItemNode → Encoder → Run Encoder
write_node nodes item next e =
    if item.main_item_type =m= rd_collection
    then (do node ← read_int nodes item.collection_index; done (write_collection node e))
    else if item.main_item_type =m= rd_collection_end
    then done (emit rd_main_collection_end (pos 0) e)
    else if item.main_item_type =m= rd_delimiter_open
    then write_delimiter_open nodes item e
    else if item.main_item_type =m= rd_delimiter_usage
    then write_delimiter_usage nodes item e
    else if item.main_item_type =m= rd_delimiter_close
    then done (write_delimiter_close e)
    else write_field item next e

abbrev pub first : List RdMainItemNode → Option RdMainItemNode
first [] = none
first (item ∷ items) = some item

unfoldable pub write_nodes : List CollectionNode → List RdMainItemNode → Encoder → Run Encoder
write_nodes nodes [] e = done e
write_nodes nodes (item ∷ items) e = do
  e' ← write_node nodes item (first items) e
  write_nodes nodes items e'

abbrev pub initial : List Cap → List ℕ → Encoder
initial caps buf = record {
  caps = caps;
  rpt_desc = record { buf = buf; buf_size = length buf; byte_idx = 0 };
  last_report_id = 0;
  last_usage_page = 0;
  last_physical_min = pos 0;
  last_physical_max = pos 0;
  last_unit_exponent = 0;
  last_unit = 0;
  inhibit_write_of_usage = false;
  report_count = pos 0;
}

-- The descriptor of a list of main items, in an array.
unfoldable pub write_descriptor : PreparsedData → List RdMainItemNode → List ℕ → Run Encoder
write_descriptor pp_data items buf =
    write_nodes pp_data.link_collection_nodes items (initial pp_data.caps buf)
