-- ===== src/Tests/Reconstruct.antt =====
-- A preparsed mouse button, and short items, on the way to a report descriptor.
use usb_hid_tool.Prelude.{ℕ, ◌≡◌, refl, true, false, List, [], ◌∷◌, arith, inl, inr, replicate}
use usb_hid_tool.Prelude.Int.{pos, negsuc}
use usb_hid_tool.Run.{Returns, All}
use usb_hid_tool.Windows.Reconstruct.Items.{
  RdBuffer, rd_global_logical_minimum, rd_write_short_item, rd_append_byte,
}
use usb_hid_tool.Windows.Reconstruct.Items.Encoding.{IsShortItem, rd_write_short_item-IsShortItem}
use usb_hid_tool.Windows.Reconstruct.Preparsed.{
  CapsInfo, CollectionNode, Cap, PreparsedData, RdMainItemNode, RdMainItems, rd_input,
  rd_collection, rd_collection_end, rd_item_node_cap, rd_item_node_collection,
}
use usb_hid_tool.Windows.Reconstruct.Encode.{write_descriptor}
use usb_hid_tool.Windows.Reconstruct.Encode.Nodes.{IsNode}
use usb_hid_tool.Windows.Reconstruct.Encode.First.{both_found}
use usb_hid_tool.Windows.Reconstruct.Encode.Usage.{IsRead, get_usage-write_descriptor}

abbrev no_caps : CapsInfo
no_caps = record { first_cap = 0; number_of_caps = 0; last_cap = 0; report_byte_length = 0 }

-- Generic Desktop, Mouse, an application collection.
abbrev mouse : CollectionNode
mouse = record {
  link_usage = 2;
  link_usage_page = 1;
  parent = 0;
  number_of_children = 0;
  next_sibling = 0;
  first_child = 0;
  collection_type = 1;
  is_alias = false;
}

abbrev button : Cap
button = record {
  usage_page = 9;
  report_id = 0;
  bit_position = 0;
  report_size = 1;
  report_count = 1;
  byte_position = 1;
  bit_field = 2;
  link_collection = 0;
  is_button_cap = true;
  is_range = false;
  is_alias = false;
  is_string_range = false;
  is_designator_range = false;
  usage_min = 1;
  usage_max = 0;
  string_min = 0;
  string_max = 0;
  designator_min = 0;
  designator_max = 0;
  data_index_min = 0;
  data_index_max = 0;
  logical_min = pos 0;
  logical_max = pos 0;
  physical_min = pos 0;
  physical_max = pos 0;
  units = 0;
  units_exp = 0;
}

abbrev preparsed : PreparsedData
preparsed = record {
  magic_key = [];
  caps_info = λ _. no_caps;
  caps = button ∷ [];
  link_collection_nodes = mouse ∷ [];
}

abbrev collection : RdMainItems → RdMainItemNode
collection type = record {
  first_bit = pos 0;
  last_bit = pos 0;
  type_of_node = rd_item_node_collection;
  caps_index = pos 0;
  collection_index = pos 0;
  main_item_type = type;
  report_id = 0;
}

abbrev field : RdMainItemNode
field = record {
  first_bit = pos 0;
  last_bit = pos 0;
  type_of_node = rd_item_node_cap;
  caps_index = pos 0;
  collection_index = pos 0;
  main_item_type = rd_input;
  report_id = 0;
}

abbrev main_items : List RdMainItemNode
main_items = collection rd_collection ∷ field ∷ collection rd_collection_end ∷ []

abbrev array : List ℕ
array = replicate 40 0

abbrev buffer : RdBuffer
buffer = record { buf = 0 ∷ 0 ∷ 0 ∷ []; buf_size = 3; byte_idx = 0 }

-- -129 does not fit in one byte.
two_bytes_written :
    rd_write_short_item rd_global_logical_minimum (negsuc 128) buffer
    ≡ (pos 0, record { buf = 0x16 ∷ 0x7f ∷ 0xff ∷ []; buf_size = 3; byte_idx = 3 })
unfolding rd_write_short_item rd_append_byte
two_bytes_written = refl

rd_write_short_item-IsShortItem_example :
    IsShortItem rd_global_logical_minimum
      (negsuc 128)
      buffer
      (rd_write_short_item rd_global_logical_minimum (negsuc 128) buffer)
rd_write_short_item-IsShortItem_example =
    rd_write_short_item-IsShortItem rd_global_logical_minimum (negsuc 128) buffer
      (omega arith, refl) (inl refl)

main_items-IsNode : All (IsNode (mouse ∷ []) (button ∷ [])) main_items
main_items-IsNode = (
  (omega arith, inl (refl, refl)),
  ((omega arith, inr (inr (omega arith))), ((omega arith, inl (refl, refl)), tt)),
)

get_usage-write_descriptor_example :
    Returns (IsRead (both_found 1 2)) (write_descriptor preparsed main_items array)
get_usage-write_descriptor_example =
    get_usage-write_descriptor preparsed (collection rd_collection)
      (field ∷ collection rd_collection_end ∷ []) array mouse refl refl (λ e. ground (arith, e))
      (omega arith) (omega arith) main_items-IsNode (omega arith)
