-- ===== src/Windows/Reconstruct/Preparsed.antt =====
-- The structures of hidapi/windows/hidapi_descriptor_reconstruct.h: the preparsed data of Windows, and
-- the nodes of the list of main items. `NotRange` shares its memory with `Range`: its usage, string
-- index, designator index and data index are the minimums.
use usb_hid_tool.Prelude.{ℕ, Bool, true, false, List, [], ◌∷◌, ◌==◌}
use usb_hid_tool.Prelude.Int.{ℤ, pos, negsuc}
use usb_hid_tool.Run.{Run, fault, read}

-- `hid_pp_caps_info`
pub record CapsInfo : Type 0 where
  pub first_cap : ℕ
  pub number_of_caps : ℕ
  pub last_cap : ℕ
  pub report_byte_length : ℕ

-- `hid_pp_link_collection_node`
pub record CollectionNode : Type 0 where
  pub link_usage : ℕ
  pub link_usage_page : ℕ
  pub parent : ℕ
  pub number_of_children : ℕ
  pub next_sibling : ℕ
  pub first_child : ℕ
  pub collection_type : ℕ
  pub is_alias : Bool

-- `hid_pp_cap`. The logical range is the one of `Button` for a button, else that of `NotButton`.
pub record Cap : Type 0 where
  pub usage_page : ℕ
  pub report_id : ℕ
  pub bit_position : ℕ
  pub report_size : ℕ
  pub report_count : ℕ
  pub byte_position : ℕ
  pub bit_field : ℕ
  pub link_collection : ℕ
  pub is_button_cap : Bool
  pub is_range : Bool
  pub is_alias : Bool
  pub is_string_range : Bool
  pub is_designator_range : Bool
  pub usage_min : ℕ
  pub usage_max : ℕ
  pub string_min : ℕ
  pub string_max : ℕ
  pub designator_min : ℕ
  pub designator_max : ℕ
  pub data_index_min : ℕ
  pub data_index_max : ℕ
  pub logical_min : ℤ
  pub logical_max : ℤ
  pub physical_min : ℤ
  pub physical_max : ℤ
  pub units : ℕ
  pub units_exp : ℕ

-- `HIDP_REPORT_TYPE`
pub data ReportType : Type 0 where
  hidp_input hidp_output hidp_feature : ReportType

-- The order of the loops over the report types.
abbrev report_types : List ReportType
report_types = hidp_input ∷ hidp_output ∷ hidp_feature ∷ []

-- `hidp_preparsed_data`
pub record PreparsedData : Type 0 where
  pub magic_key : List ℕ
  pub caps_info : ReportType → CapsInfo
  pub caps : List Cap
  pub link_collection_nodes : List CollectionNode

-- `rd_main_items`
pub data RdMainItems : Type 0 where
  rd_input rd_output rd_feature rd_collection rd_collection_end : RdMainItems
  rd_delimiter_open rd_delimiter_usage rd_delimiter_close : RdMainItems

abbrev pub main_item_number : RdMainItems → ℕ
main_item_number rd_input = 0
main_item_number rd_output = 1
main_item_number rd_feature = 2
main_item_number rd_collection = 3
main_item_number rd_collection_end = 4
main_item_number rd_delimiter_open = 5
main_item_number rd_delimiter_usage = 6
main_item_number rd_delimiter_close = 7

-- `(rd_main_items) rt_idx`
abbrev main_item_of : ReportType → RdMainItems
main_item_of hidp_input = rd_input
main_item_of hidp_output = rd_output
main_item_of hidp_feature = rd_feature

infix 50 ◌=m=◌
abbrev pub ◌=m=◌ : RdMainItems → RdMainItems → Bool
a =m= b = main_item_number a == main_item_number b

-- `rd_node_type`
pub data RdNodeType : Type 0 where
  rd_item_node_cap rd_item_node_padding rd_item_node_collection : RdNodeType

abbrev pub is_padding : RdNodeType → Bool
is_padding rd_item_node_padding = true
is_padding rd_item_node_cap = false
is_padding rd_item_node_collection = false

abbrev pub is_cap : RdNodeType → Bool
is_cap rd_item_node_cap = true
is_cap rd_item_node_padding = false
is_cap rd_item_node_collection = false

-- `struct rd_main_item_node`, without its link.
pub record RdMainItemNode : Type 0 where
  pub first_bit : ℤ
  pub last_bit : ℤ
  pub type_of_node : RdNodeType
  pub caps_index : ℤ
  pub collection_index : ℤ
  pub main_item_type : RdMainItems
  pub report_id : ℕ

-- `a[i]` at an `int`.
abbrev pub read_int {ℓ} : {A : Type ℓ} → List A → ℤ → Run A
read_int xs (pos n) = read xs n
read_int xs (negsuc n) = fault
