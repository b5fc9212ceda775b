-- ===== src/Windows/Reconstruct/Items.antt =====
-- `rd_append_byte` and `rd_write_short_item` of hidapi/windows/hidapi_descriptor_reconstruct.c, and
-- the item codes of its header. `LONG64` is an integer that has not overflowed.
pub mod Keys
pub mod Buffer
pub mod Values
pub mod Encoding
use usb_hid_tool.Prelude.{
  ℕ, suc, ◌+◌, ◌-◌, ◌/◌, ◌%◌, ◌^◌, Bool, true, false, not, ◌||◌, List, ltb, leb, ◌==◌,
  if◌then◌else◌, bit_and, set,
}
use usb_hid_tool.Prelude.Int.{ℤ, pos, negsuc, minus_one}

-- `struct rd_buffer`: the whole array, its size, and the number of bytes written.
pub record RdBuffer : Type 0 where
  pub buf : List ℕ
  pub buf_size : ℕ
  pub byte_idx : ℕ

unfoldable pub rd_append_byte : ℕ → RdBuffer → RdBuffer
rd_append_byte byte rpt_desc =
    if ltb rpt_desc.byte_idx rpt_desc.buf_size
    then record rpt_desc {
      buf = set rpt_desc.buf rpt_desc.byte_idx byte;
      byte_idx = suc rpt_desc.byte_idx;
    }
    else rpt_desc

-- `rd_items`
pub data RdItems : Type 0 where
  rd_main_input rd_main_output rd_main_feature : RdItems
  rd_main_collection rd_main_collection_end rd_global_usage_page : RdItems
  rd_global_logical_minimum rd_global_logical_maximum rd_global_physical_minimum : RdItems
  rd_global_physical_maximum rd_global_unit_exponent rd_global_unit : RdItems
  rd_global_report_size rd_global_report_id rd_global_report_count : RdItems
  rd_global_push rd_global_pop rd_local_usage : RdItems
  rd_local_usage_minimum rd_local_usage_maximum rd_local_designator_index : RdItems
  rd_local_designator_minimum rd_local_designator_maximum rd_local_string : RdItems
  rd_local_string_minimum rd_local_string_maximum rd_local_delimiter : RdItems

abbrev pub code : RdItems → ℕ
code rd_main_input = 0x80
code rd_main_output = 0x90
code rd_main_feature = 0xB0
code rd_main_collection = 0xA0
code rd_main_collection_end = 0xC0
code rd_global_usage_page = 0x04
code rd_global_logical_minimum = 0x14
code rd_global_logical_maximum = 0x24
code rd_global_physical_minimum = 0x34
code rd_global_physical_maximum = 0x44
code rd_global_unit_exponent = 0x54
code rd_global_unit = 0x64
code rd_global_report_size = 0x74
code rd_global_report_id = 0x84
code rd_global_report_count = 0x94
code rd_global_push = 0xA4
code rd_global_pop = 0xB4
code rd_local_usage = 0x08
code rd_local_usage_minimum = 0x18
code rd_local_usage_maximum = 0x28
code rd_local_designator_index = 0x38
code rd_local_designator_minimum = 0x48
code rd_local_designator_maximum = 0x58
code rd_local_string = 0x78
code rd_local_string_minimum = 0x88
code rd_local_string_maximum = 0x98
code rd_local_delimiter = 0xA8

-- `-bound <= data && data < bound`
abbrev pub fits_signed : ℕ → ℤ → Bool
fits_signed bound (pos n) = ltb n bound
fits_signed bound (negsuc n) = ltb n bound

-- `data >= 0 && data <= top`
abbrev pub fits_unsigned : ℕ → ℤ → Bool
fits_unsigned top (pos n) = leb n top
fits_unsigned top (negsuc n) = false

-- The byte of an integer at a place 2^(8k): an arithmetic shift by 8k, and `& 0xFF`.
abbrev pub byte_at : ℕ → ℤ → ℕ
byte_at place (pos n) = n / place % 0x100
byte_at place (negsuc n) = 0xFF - n / place % 0x100

-- `(unsigned char) rd_item + size_code`, in an `unsigned char`.
abbrev pub prefix_byte : RdItems → ℕ → ℕ
prefix_byte rd_item size_code = (code rd_item % 0x100 + size_code) % 0x100

abbrev write_none : RdItems → RdBuffer → RdBuffer
write_none rd_item b = rd_append_byte (prefix_byte rd_item 0) b

abbrev write_one : RdItems → ℤ → RdBuffer → RdBuffer
write_one rd_item item_data b =
    rd_append_byte (byte_at 1 item_data) (rd_append_byte (prefix_byte rd_item 1) b)

abbrev write_two : RdItems → ℤ → RdBuffer → RdBuffer
write_two rd_item item_data b =
    rd_append_byte (byte_at 0x100 item_data)
      (rd_append_byte (byte_at 1 item_data) (rd_append_byte (prefix_byte rd_item 2) b))

abbrev write_four : RdItems → ℤ → RdBuffer → RdBuffer
write_four rd_item item_data b = rd_append_byte (byte_at 0x1000000 item_data) (
    rd_append_byte (byte_at 0x10000 item_data) (
      rd_append_byte (byte_at 0x100 item_data)
        (rd_append_byte (byte_at 1 item_data) (rd_append_byte (prefix_byte rd_item 3) b))))

infix 50 ◌is◌
abbrev pub ◌is◌ : RdItems → RdItems → Bool
a is b = code a == code b

abbrev pub is_signed_item : RdItems → Bool
is_signed_item rd_item =
    rd_item is rd_global_logical_minimum
    || rd_item is rd_global_logical_maximum
    || rd_item is rd_global_physical_minimum
    || rd_item is rd_global_physical_maximum

-- The result, and the buffer.
unfoldable pub rd_write_short_item : RdItems → ℤ → RdBuffer → ℤ × RdBuffer
rd_write_short_item rd_item item_data b =
    if not (bit_and (code rd_item) 0x03 == 0)
    then (minus_one, b)
    else if rd_item is rd_main_collection_end
    then (pos 0, write_none rd_item b)
    else if is_signed_item rd_item
    then (if fits_signed 0x80 item_data
        then (pos 0, write_one rd_item item_data b)
        else if fits_signed 0x8000 item_data
        then (pos 0, write_two rd_item item_data b)
        else if fits_signed 0x80000000 item_data
        then (pos 0, write_four rd_item item_data b)
        else (minus_one, b))
    else if fits_unsigned 0xFF item_data
    then (pos 0, write_one rd_item item_data b)
    else if fits_unsigned 0xFFFF item_data
    then (pos 0, write_two rd_item item_data b)
    else if fits_unsigned 0xFFFFFFFF item_data
    then (pos 0, write_four rd_item item_data b)
    else (minus_one, b)
