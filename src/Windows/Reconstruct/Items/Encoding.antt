-- ===== src/Windows/Reconstruct/Items/Encoding.antt =====
-- What `rd_write_short_item` writes: an item in its shortest form, cut at the end of the buffer.
use usb_hid_tool.Prelude.{
  ℕ, ◌^◌, ◌≤◌, ◌<◌, ◌≡◌, ◌⊎◌, refl, sym, ap, ◌∙◌, subst, Bool, true, false, none, some, List, [],
  ◌∷◌, length, bit_and, inl, inr, Bool-cases, arith,
}
use mathlib.Core.Option.{some-injective}
use usb_hid_tool.Prelude.Int.{ℤ, pos, negsuc, minus_one}
use usb_hid_tool.Libusb.Usage.Encoding.{short, IsItem, value}
use usb_hid_tool.Windows.Reconstruct.Items.{
  rd_main_collection_end, RdBuffer, RdItems, code, ◌is◌, rd_write_short_item, prefix_byte,
  fits_signed, fits_unsigned, is_signed_item,
}
use usb_hid_tool.Windows.Reconstruct.Items.Keys.{
  one_byte, two_bytes, shortest, data_bytes, size_code, IsBuffer, wrote, rd_write_short_item-wrote,
}
use usb_hid_tool.Windows.Reconstruct.Items.Buffer.{IsExtended, append_all-IsExtended}
use usb_hid_tool.Windows.Reconstruct.Items.Values.{
  value-bytes, value_two, holds, IsWritten, signed_value-one, signed_value-two, signed_value-four,
  unsigned_value-one, unsigned_value-two, unsigned_value-four, IsWritten-bytes, shortest-holds,
  one_byte-IsWritten, two_bytes-IsWritten, four_bytes-IsWritten,
}

zero_of_end :
    (item : RdItems) (z : ℤ)
    → (item is rd_main_collection_end) ≡ true
    → holds item z ≡ true
    → pos 0 ≡ z
zero_of_end item (pos n) e h = ap pos (ground (arith, e, h))
zero_of_end item (negsuc n) e h = ground (arith, e, h)

-- The data of an item that holds `z`.
data_bytes-holds :
    (item : RdItems) (z : ℤ)
    → holds item z ≡ true
    → (xs : List ℕ) × (data_bytes item z ≡ some xs) × IsWritten item z xs
data_bytes-holds item z h = elim (Bool-cases (item is rd_main_collection_end)) [
  | inl e ↦
      ([], rw e refl, IsWritten-bytes item z [] tt (inl (omega arith)) (zero_of_end item z e h))
  | inr e ↦ elim (Bool-cases (is_signed_item item)) [
    | inl s ↦
        let all =
          shortest-holds (IsWritten item z) z _ _ _
            (λ k. one_byte-IsWritten item z (rw s (signed_value-one z k)))
            (λ k. two_bytes-IsWritten item z (rw s (signed_value-two z k)))
            (λ k. four_bytes-IsWritten item z (rw s (signed_value-four z k)))
            (ground (arith, e, s, h)) in
        (all.0, rw e (rw s all.1), all.2)
    | inr s ↦
        let all =
          shortest-holds (IsWritten item z) z _ _ _
            (λ k. one_byte-IsWritten item z (rw s (unsigned_value-one z k)))
            (λ k. two_bytes-IsWritten item z (rw s (unsigned_value-two z k)))
            (λ k. four_bytes-IsWritten item z (rw s (unsigned_value-four z k)))
            (ground (arith, e, s, h)) in
        (all.0, rw e (rw s all.1), all.2)
  ]
]

shortest-none : (z : ℤ) (a b : Bool) → a ≡ false → b ≡ false → shortest z a b false ≡ none
shortest-none z false false h k = refl
shortest-none z true b h k = ground (arith, h)
shortest-none z false true h k = ground (arith, k)

unheld_signed :
    (z : ℤ)
    → fits_signed 0x80000000 z ≡ false
    → (fits_signed 0x80 z ≡ false) × (fits_signed 0x8000 z ≡ false)
unheld_signed (pos n) h = ground (arith, h)
unheld_signed (negsuc n) h = ground (arith, h)

unheld_unsigned :
    (z : ℤ)
    → fits_unsigned 0xFFFFFFFF z ≡ false
    → (fits_unsigned 0xFF z ≡ false) × (fits_unsigned 0xFFFF z ≡ false)
unheld_unsigned (pos n) h = ground (arith, h)
unheld_unsigned (negsuc n) h = (refl, refl)

data_bytes-none :
    (item : RdItems) (z : ℤ)
    → holds item z ≡ false
    → (item is rd_main_collection_end) ≡ false
    → data_bytes item z ≡ none
data_bytes-none item z h e = elim (Bool-cases (is_signed_item item)) [
  | inl s ↦
      let k : fits_signed 0x80000000 z ≡ false = ground (arith, e, s, h) in
      let l = unheld_signed z k in rw e (rw s (rw k (shortest-none z _ _ l.0 l.1)))
  | inr s ↦
      let k : fits_unsigned 0xFFFFFFFF z ≡ false = ground (arith, e, s, h) in
      let l = unheld_unsigned z k in rw e (rw s (rw k (shortest-none z _ _ l.0 l.1)))
]

-- The key and the data of an item with the value `z` are written, and the result is 0; or it is -1,
-- and the buffer is as it was.
abbrev pub IsShortItem : RdItems → ℤ → RdBuffer → ℤ × RdBuffer → Type 0
IsShortItem item z b (result, b') =
    ((holds item z ≡ true)
      × (result ≡ pos 0)
      × (xs : List ℕ) × IsWritten item z xs
      × IsExtended (prefix_byte item (size_code xs) ∷ xs) b b')
    ⊎ ((holds item z ≡ false) × (result ≡ minus_one) × (b' ≡ b))

end_holds :
    (item : RdItems) (z : ℤ)
    → ((item is rd_main_collection_end) ≡ false) ⊎ (z ≡ pos 0)
    → holds item z ≡ false
    → (item is rd_main_collection_end) ≡ false
end_holds item z (inl e) h = e
end_holds item z (inr e) h = ground (arith, e, h)

-- An integer that the item can hold is written as a well-formed item, which has the code of the item
-- and whose little-endian data, in two's complement for a logical or physical limit, is the integer;
-- it is cut where the buffer ends. Another integer is refused, with the buffer as it was. (The end of
-- a collection is written with 0.)
pub rd_write_short_item-IsShortItem :
    (item : RdItems) (z : ℤ) (b : RdBuffer)
    → IsBuffer b
    → ((item is rd_main_collection_end) ≡ false) ⊎ (z ≡ pos 0)
    → IsShortItem item z b (rd_write_short_item item z b)
rd_write_short_item-IsShortItem item z b h end = elim (Bool-cases (holds item z)) [
  | inl e ↦
      let d = data_bytes-holds item z e in
      subst (IsShortItem item z b)
        (sym (rd_write_short_item-wrote item z b ∙ ap (wrote item b) d.1))
        (inl
          (e, refl, d.0, d.2, append_all-IsExtended (prefix_byte item (size_code d.0) ∷ d.0) b h))
  | inr e ↦
      subst (IsShortItem item z b)
        (sym (
          rd_write_short_item-wrote item z b
          ∙ ap (wrote item b) (data_bytes-none item z e (end_holds item z end e))))
        (inr (e, refl, refl))
]

-- The data of a 16-bit number: one byte or two.
data_bytes-u16 :
    (item : RdItems) (n : ℕ)
    → n < 2 ^ 16
    → (item is rd_main_collection_end) ≡ false
    → is_signed_item item ≡ false
    → (xs : List ℕ) × (data_bytes item (pos n) ≡ some xs) × (length xs ≤ 2) × (value xs ≡ n)
data_bytes-u16 item n h c s = elim (Bool-cases (fits_unsigned 0xFF (pos n))) [
  | inl e ↦
      (one_byte (pos n), rw c (rw s (rw e refl)), omega arith, value-bytes n (ground (arith, e)))
  | inr e ↦
      let k : fits_unsigned 0xFFFF (pos n) ≡ true = ground (arith, h) in
      (two_bytes (pos n), rw c (rw s (rw e (rw k refl))), omega arith, value_two n h)
]

holds-u16 :
    (item : RdItems) (n : ℕ)
    → n < 2 ^ 16
    → (item is rd_main_collection_end) ≡ false
    → is_signed_item item ≡ false
    → holds item (pos n) ≡ true
holds-u16 item n h c s = ground (arith, h, c, s)

-- A 16-bit number is written as an item with one byte of data or two.
pub rd_write_short_item-u16 :
    (item : RdItems) (n : ℕ) (b : RdBuffer)
    → n < 2 ^ 16
    → (item is rd_main_collection_end) ≡ false
    → is_signed_item item ≡ false
    → IsBuffer b
    → (xs : List ℕ) × (length xs ≤ 2)
      × (value xs ≡ n)
      × IsItem (short (prefix_byte item (size_code xs)) xs)
      × (bit_and (prefix_byte item (size_code xs)) 0xfc ≡ code item)
      × IsExtended (prefix_byte item (size_code xs) ∷ xs) b (rd_write_short_item item (pos n) b).1
rd_write_short_item-u16 item n b h c s i =
    let d = data_bytes-u16 item n h c s in
    let w = data_bytes-holds item (pos n) (holds-u16 item n h c s) in
    let same : w.0 ≡ d.0 = some-injective _ _ (sym w.1 ∙ d.1) in
    let wide : IsWritten item (pos n) d.0 = subst (IsWritten item (pos n)) same w.2 in
    (
      d.0,
      d.2,
      d.3,
      wide.0,
      wide.1,
      subst (λ (r : ℤ × RdBuffer). IsExtended (prefix_byte item (size_code d.0) ∷ d.0) b r.1)
          (sym (rd_write_short_item-wrote item (pos n) b ∙ ap (wrote item b) d.1))
          (append_all-IsExtended (prefix_byte item (size_code d.0) ∷ d.0) b i),
    )
