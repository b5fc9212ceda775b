-- ===== src/Windows/Reconstruct/Items/Keys.antt =====
-- The keys of short items, and the bytes that `rd_write_short_item` writes.
use usb_hid_tool.Prelude.{
  ℕ, zero, suc, ◌≤◌, ◌<◌, ◌≡◌, ◌≢◌, refl, Bool, true, false, not, ◌&&◌, Option, none, some, List,
  [], ◌∷◌, ◌==◌, if◌then◌else◌, length, take, ltb, bit_and, arith,
}
use usb_hid_tool.Prelude.Int.{ℤ, pos, minus_one}
use usb_hid_tool.Windows.Reconstruct.Items.{
  rd_main_input, rd_main_output, rd_main_feature, rd_main_collection, rd_main_collection_end,
  rd_global_usage_page, rd_global_logical_minimum, rd_global_logical_maximum,
  rd_global_physical_minimum, rd_global_physical_maximum, rd_global_unit_exponent, rd_global_unit,
  rd_global_report_size, rd_global_report_id, rd_global_report_count, rd_global_push, rd_global_pop,
  rd_local_usage, rd_local_usage_minimum, rd_local_usage_maximum, rd_local_designator_index,
  rd_local_designator_minimum, rd_local_designator_maximum, rd_local_string,
  rd_local_string_minimum, rd_local_string_maximum, rd_local_delimiter, RdBuffer, RdItems, code,
  ◌is◌, rd_append_byte, rd_write_short_item, byte_at, prefix_byte, fits_signed, fits_unsigned,
  is_signed_item,
}

abbrev pub one_byte : ℤ → List ℕ
one_byte z = byte_at 1 z ∷ []

abbrev pub two_bytes : ℤ → List ℕ
two_bytes z = byte_at 1 z ∷ byte_at 0x100 z ∷ []

abbrev pub four_bytes : ℤ → List ℕ
four_bytes z = byte_at 1 z ∷ byte_at 0x100 z ∷ byte_at 0x10000 z ∷ byte_at 0x1000000 z ∷ []

abbrev pub shortest : ℤ → Bool → Bool → Bool → Option (List ℕ)
shortest z true b c = some (one_byte z)
shortest z false true c = some (two_bytes z)
shortest z false false true = some (four_bytes z)
shortest z false false false = none

-- The data of an item, in as few bytes as hold it; `none` for data that 32 bits do not hold.
abbrev pub data_bytes : RdItems → ℤ → Option (List ℕ)
data_bytes rd_item z =
    if rd_item is rd_main_collection_end
    then some []
    else if is_signed_item rd_item
    then shortest z (fits_signed 0x80 z) (fits_signed 0x8000 z) (fits_signed 0x80000000 z)
    else shortest z (fits_unsigned 0xFF z) (fits_unsigned 0xFFFF z) (fits_unsigned 0xFFFFFFFF z)

abbrev pub size_code : List ℕ → ℕ
size_code xs = if length xs == 4 then 3 else length xs

abbrev pub append_all : List ℕ → RdBuffer → RdBuffer
append_all [] b = b
append_all (x ∷ xs) b = append_all xs (rd_append_byte x b)

-- The index is in the buffer, or at its end.
abbrev pub IsBuffer : RdBuffer → Type 0
IsBuffer b = (b.byte_idx ≤ b.buf_size) × (length b.buf ≡ b.buf_size)

abbrev pub written : RdBuffer → List ℕ
written b = take b.byte_idx b.buf

abbrev pub wrote : RdItems → RdBuffer → Option (List ℕ) → ℤ × RdBuffer
wrote rd_item b none = (minus_one, b)
wrote rd_item b (some xs) = (pos 0, append_all (prefix_byte rd_item (size_code xs) ∷ xs) b)

-- The key of a short item with a size code, from 0 to 3, tells its item and the size code.
abbrev tells : RdItems → ℕ → Bool
tells item size =
    let key = prefix_byte item size in
    not (bit_and key 0xf0 == 0xf0)
    && bit_and key 0x3 == size
    && bit_and key 0xfc == code item
    && ltb key 0x100

abbrev tells_all : RdItems → Bool
tells_all item =
    bit_and (code item) 0x03 == 0 && tells item 0 && tells item 1 && tells item 2 && tells item 3

tells_all-true : (item : RdItems) → tells_all item ≡ true
tells_all-true rd_main_input = refl
tells_all-true rd_main_output = refl
tells_all-true rd_main_feature = refl
tells_all-true rd_main_collection = refl
tells_all-true rd_main_collection_end = refl
tells_all-true rd_global_usage_page = refl
tells_all-true rd_global_logical_minimum = refl
tells_all-true rd_global_logical_maximum = refl
tells_all-true rd_global_physical_minimum = refl
tells_all-true rd_global_physical_maximum = refl
tells_all-true rd_global_unit_exponent = refl
tells_all-true rd_global_unit = refl
tells_all-true rd_global_report_size = refl
tells_all-true rd_global_report_id = refl
tells_all-true rd_global_report_count = refl
tells_all-true rd_global_push = refl
tells_all-true rd_global_pop = refl
tells_all-true rd_local_usage = refl
tells_all-true rd_local_usage_minimum = refl
tells_all-true rd_local_usage_maximum = refl
tells_all-true rd_local_designator_index = refl
tells_all-true rd_local_designator_minimum = refl
tells_all-true rd_local_designator_maximum = refl
tells_all-true rd_local_string = refl
tells_all-true rd_local_string_minimum = refl
tells_all-true rd_local_string_maximum = refl
tells_all-true rd_local_delimiter = refl

-- What `tells` states.
abbrev IsKey : RdItems → ℕ → Type 0
IsKey item size =
    let key = prefix_byte item size in
    (bit_and key 0xf0 ≢ 0xf0)
    × (bit_and key 0x3 ≡ size)
    × (bit_and key 0xfc ≡ code item)
    × (key < 0x100)

all_tests :
    (hi lo cmd key size c : ℕ)
    → (not (hi == 0xf0) && lo == size && cmd == c && ltb key 0x100) ≡ true
    → (hi ≢ 0xf0) × (lo ≡ size) × (cmd ≡ c) × (key < 0x100)
all_tests hi lo cmd key size c h = ground (arith, h)

tells-IsKey : (item : RdItems) (size : ℕ) → tells item size ≡ true → IsKey item size
tells-IsKey item size h =
    let key = prefix_byte item size in
    all_tests (bit_and key 0xf0) (bit_and key 0x3) (bit_and key 0xfc) key size (code item) h

all_five :
    (a b c d e : Bool)
    → (a && b && c && d && e) ≡ true
    → (a ≡ true) × (b ≡ true) × (c ≡ true) × (d ≡ true) × (e ≡ true)
all_five true true true true true h = (refl, refl, refl, refl, refl)
all_five a b c d e h = ground arith

tells_each :
    (item : RdItems)
    → (bit_and (code item) 0x03 == 0 ≡ true)
      × (tells item 0 ≡ true)
      × (tells item 1 ≡ true)
      × (tells item 2 ≡ true)
      × (tells item 3 ≡ true)
tells_each item = all_five _ _ _ _ _ (tells_all-true item)

pub prefix_byte-IsKey : (item : RdItems) (size : ℕ) → size ≤ 3 → IsKey item size
prefix_byte-IsKey item zero h = tells-IsKey item 0 (tells_each item).1
prefix_byte-IsKey item (suc zero) h = tells-IsKey item 1 (tells_each item).2
prefix_byte-IsKey item (suc (suc zero)) h = tells-IsKey item 2 (tells_each item).3
prefix_byte-IsKey item (suc (suc (suc zero))) h = tells-IsKey item 3 (tells_each item).4
prefix_byte-IsKey item (suc (suc (suc (suc n)))) h = absurd (omega arith)

code-aligned : (item : RdItems) → bit_and (code item) 0x03 ≡ 0
code-aligned item = ground (arith, (tells_each item).0)

-- An item is written whole, or not at all.
pub rd_write_short_item-wrote :
    (rd_item : RdItems) (z : ℤ) (b : RdBuffer)
    → rd_write_short_item rd_item z b ≡ wrote rd_item b (data_bytes rd_item z)
unfolding rd_write_short_item
rd_write_short_item-wrote rd_item z b = ground (arith, code-aligned rd_item)
