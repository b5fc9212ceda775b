-- ===== src/Windows/Reconstruct/Items/Values.antt =====
-- The integers that the data of an item stand for.
use usb_hid_tool.Prelude.{
  ℕ, ◌-◌, ◌*◌, ◌^◌, ◌≤◌, ◌<◌, ◌≡◌, ◌⊎◌, refl, ap, Bool, true, false, some, List, [], ◌∷◌, ◌==◌,
  if◌then◌else◌, length, ltb, bit_and, inl, inr, arith,
}
use usb_hid_tool.Prelude.Int.{ℤ, pos, negsuc}
use usb_hid_tool.Run.{All}
use usb_hid_tool.Libusb.Usage.Encoding.{short, IsItem, value}
use usb_hid_tool.Windows.Reconstruct.Items.{
  rd_main_collection_end, RdItems, code, ◌is◌, byte_at, prefix_byte, fits_signed, fits_unsigned,
  is_signed_item,
}
use usb_hid_tool.Windows.Reconstruct.Items.Keys.{
  one_byte, two_bytes, four_bytes, shortest, size_code, prefix_byte-IsKey,
}

-- `n` is written in one, two or four bytes.
pub value-bytes : (n : ℕ) → n < 0x100 → value (byte_at 1 (pos n) ∷ []) ≡ n
value-bytes n h = omega arith

pub value_two : (n : ℕ) → n < 0x10000 → value (byte_at 1 (pos n) ∷ byte_at 0x100 (pos n) ∷ []) ≡ n
value_two n h = omega arith

value_four :
    (n : ℕ)
    → n < 2 ^ 32
    → value (
        byte_at 1 (pos n)
        ∷ byte_at 0x100 (pos n)
        ∷ byte_at 0x10000 (pos n)
        ∷ byte_at 0x1000000 (pos n)
        ∷ [])
      ≡ n
value_four n h = omega arith

-- Two's complement: the integer of little-endian bytes.
abbrev signed_value : List ℕ → ℤ
signed_value xs =
    let half = 128 * 256 ^ (length xs - 1) in
    if ltb (value xs) half then pos (value xs) else negsuc (2 * half - 1 - value xs)

-- The integer that the data of an item stands for.
abbrev item_value : RdItems → List ℕ → ℤ
item_value item [] = pos 0
item_value item (x ∷ xs) =
    if is_signed_item item then signed_value (x ∷ xs) else pos (value (x ∷ xs))

-- The integers that an item can hold.
abbrev pub holds : RdItems → ℤ → Bool
holds item z =
    if item is rd_main_collection_end
    then z_is_zero z
    else if is_signed_item item
    then fits_signed 0x80000000 z
    else fits_unsigned 0xFFFFFFFF z
  where
    z_is_zero : ℤ → Bool
    z_is_zero (pos n) = n == 0
    z_is_zero (negsuc n) = false

abbrev pub IsWritten : RdItems → ℤ → List ℕ → Type 0
IsWritten item z xs =
    IsItem (short (prefix_byte item (size_code xs)) xs)
    × (bit_and (prefix_byte item (size_code xs)) 0xfc ≡ code item)
    × (item_value item xs ≡ z)

byte_at-lt : (place : ℕ) (z : ℤ) → byte_at place z < 0x100
byte_at-lt place (pos n) = omega arith
byte_at-lt place (negsuc n) = omega arith

pub signed_value-one : (z : ℤ) → fits_signed 0x80 z ≡ true → signed_value (one_byte z) ≡ z
signed_value-one (pos n) h = ground (arith, h)
signed_value-one (negsuc n) h = ground (arith, h)

pub signed_value-two : (z : ℤ) → fits_signed 0x8000 z ≡ true → signed_value (two_bytes z) ≡ z
signed_value-two (pos n) h = ground (arith, h)
signed_value-two (negsuc n) h = ground (arith, h)

pub signed_value-four : (z : ℤ) → fits_signed 0x80000000 z ≡ true → signed_value (four_bytes z) ≡ z
signed_value-four (pos n) h = ground (arith, h)
signed_value-four (negsuc n) h = ground (arith, h)

pub unsigned_value-one : (z : ℤ) → fits_unsigned 0xFF z ≡ true → pos (value (one_byte z)) ≡ z
unsigned_value-one (pos n) h = ap pos (value-bytes n (ground (arith, h)))
unsigned_value-one (negsuc n) h = ground (arith, h)

pub unsigned_value-two : (z : ℤ) → fits_unsigned 0xFFFF z ≡ true → pos (value (two_bytes z)) ≡ z
unsigned_value-two (pos n) h = ap pos (value_two n (ground (arith, h)))
unsigned_value-two (negsuc n) h = ground (arith, h)

pub unsigned_value-four :
    (z : ℤ) → fits_unsigned 0xFFFFFFFF z ≡ true → pos (value (four_bytes z)) ≡ z
unsigned_value-four (pos n) h = ap pos (value_four n (ground (arith, h)))
unsigned_value-four (negsuc n) h = ground (arith, h)

-- Some bytes behind the key of an item, with the value `z`.
pub IsWritten-bytes :
    (item : RdItems) (z : ℤ) (xs : List ℕ)
    → All (λ b. b < 256) xs
    → (length xs ≤ 2) ⊎ (length xs ≡ 4)
    → item_value item xs ≡ z
    → IsWritten item z xs
IsWritten-bytes item z xs a l v =
    let k = prefix_byte-IsKey item (size_code xs) (ground (arith, l)) in
    ((k.0, ground (arith, k.1), ground (arith, k.1, l), a), k.2, v)

pub shortest-holds :
    (P : List ℕ → Type 0) (z : ℤ) (a b c : Bool)
    → (a ≡ true → P (one_byte z))
    → (b ≡ true → P (two_bytes z))
    → (c ≡ true → P (four_bytes z))
    → c ≡ true
    → (xs : List ℕ) × (shortest z a b c ≡ some xs) × P xs
shortest-holds P z true b c f g k h = (one_byte z, refl, f refl)
shortest-holds P z false true c f g k h = (two_bytes z, refl, g refl)
shortest-holds P z false false true f g k h = (four_bytes z, refl, k refl)
shortest-holds P z false false false f g k h = ground (arith, h)

pub one_byte-IsWritten :
    (item : RdItems) (z : ℤ) → item_value item (one_byte z) ≡ z → IsWritten item z (one_byte z)
one_byte-IsWritten item z v =
    IsWritten-bytes item z (one_byte z) (byte_at-lt 1 z, tt) (inl (omega arith)) v

pub two_bytes-IsWritten :
    (item : RdItems) (z : ℤ) → item_value item (two_bytes z) ≡ z → IsWritten item z (two_bytes z)
two_bytes-IsWritten item z v =
    IsWritten-bytes item z (two_bytes z) (byte_at-lt 1 z, (byte_at-lt 0x100 z, tt))
      (inl (omega arith)) v

pub four_bytes-IsWritten :
    (item : RdItems) (z : ℤ) → item_value item (four_bytes z) ≡ z → IsWritten item z (four_bytes z)
four_bytes-IsWritten item z v =
    IsWritten-bytes item z (four_bytes z)
      (byte_at-lt 1 z, (byte_at-lt 0x100 z, (byte_at-lt 0x10000 z, (byte_at-lt 0x1000000 z, tt))))
      (inr refl) v
