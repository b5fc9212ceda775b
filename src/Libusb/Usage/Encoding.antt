-- ===== src/Libusb/Usage/Encoding.antt =====
-- The items of a report descriptor, their encoding, and the values that are read from it.
use usb_hid_tool.Prelude.{
  ℕ, ◌+◌, ◌*◌, ◌^◌, ◌≤◌, ◌<◌, ◌≡◌, ◌≢◌, ◌⊎◌, refl, Bool, true, false, List, [], ◌∷◌, ◌++◌, some,
  ◌==◌, if◌then◌else◌, length, take, drop, length-append, arith, Bool-cases, inl, inr, bit_and,
}
use usb_hid_tool.Run.{done, read_at, append_assoc, All}
use usb_hid_tool.Libusb.Usage.{get_bytes, Found, u16, is_complete, item_size, store_item}

-- A short item has a key and its data; a long item a key, a tag and its data.
pub data Item : Type 0 where
  short : ℕ → List ℕ → Item
  long : ℕ → ℕ → List ℕ → Item

abbrev pub bytes_of : Item → List ℕ → List ℕ
bytes_of (short key xs) rest = key ∷ xs ++ rest
bytes_of (long key tag xs) rest = key ∷ length xs ∷ tag ∷ xs ++ rest

abbrev pub encode : List Item → List ℕ
encode [] = []
encode (it ∷ its) = bytes_of it (encode its)

-- The length of the data of a short item, by its size code.
abbrev data_length : ℕ → ℕ
data_length code = if code == 3 then 4 else code

-- The key tells a short item from a long one, and the length of its data.
abbrev pub IsItem : Item → Type 0
IsItem (short key xs) =
    (bit_and key 0xf0 ≢ 0xf0)
    × (bit_and key 0x3 ≤ 3)
    × (length xs ≡ data_length (bit_and key 0x3))
    × All (λ b. b < 256) xs
IsItem (long key tag xs) =
    (bit_and key 0xf0 ≡ 0xf0) × (bit_and key 0xfc ≢ 0x4) × (bit_and key 0xfc ≢ 0x8)

-- The value of little-endian bytes.
abbrev pub value : List ℕ → ℕ
value [] = 0
value (b ∷ bs) = b + 256 * value bs

-- What an item says: a usage page has command 4, a usage command 8, which with four bytes of data
-- holds the page in the upper two.
abbrev pub says : Item → Found → Found
says (long key tag xs) f = f
says (short key xs) f =
    if bit_and key 0xfc == 0x4
    then record f { usage_page = some (u16 (value xs)) }
    else if bit_and key 0xfc == 0x8
    then (if length xs == 4
        then record {
          usage_page = some (u16 (value (drop 2 xs)));
          usage = some (u16 (value (take 2 xs)));
        }
        else record f { usage = some (u16 (value xs)) })
    else f

-- The items up to the first that leaves nothing to find.
abbrev pub first_usage : List Item → Found → Bool × Found
first_usage [] f = (false, f)
first_usage (it ∷ its) f =
    if is_complete (says it f) then (true, says it f) else first_usage its (says it f)

get_bytes-value :
    (front xs rest : List ℕ) (key i n : ℕ)
    → length front ≡ i
    → length xs ≡ n
    → i + n < 2 ^ 31
    → All (λ b. b < 256) xs
    → (n ≤ 2) ⊎ (n ≡ 4)
    → get_bytes (front ++ (key ∷ xs ++ rest)) (length (front ++ (key ∷ xs ++ rest))) n i
      ≡ done (value xs)
unfolding get_bytes
get_bytes-value front [] rest key i n l e s a h = ground (arith, length-append front (key ∷ rest))
get_bytes-value front (a ∷ []) rest key i n l e s b h =
    let tail : List ℕ = key ∷ a ∷ rest in
    ground (arith, length-append front tail, read_at front tail 1 (i + 1))
get_bytes-value front (a ∷ b ∷ []) rest key i n l e s c h =
    let tail : List ℕ = key ∷ a ∷ b ∷ rest in
    ground
      (arith, length-append front tail, read_at front tail 1 (i + 1), read_at front tail 2 (i + 2))
get_bytes-value front (a ∷ b ∷ c ∷ []) rest key i n l e s d h = absurd (ground (arith, h))
get_bytes-value front (a ∷ b ∷ c ∷ d ∷ []) rest key i n l e s f h =
    let tail : List ℕ = key ∷ a ∷ b ∷ c ∷ d ∷ rest in
    ground (
      arith,
      length-append front tail,
      f,
      read_at front tail 1 (i + 1),
      read_at front tail 2 (i + 2),
      read_at front tail 3 (i + 3),
      read_at front tail 4 (i + 4),
    )
get_bytes-value front (a ∷ b ∷ c ∷ d ∷ f ∷ xs) rest key i n l e s g h = absurd (ground (arith, h))

data_length-short :
    (key : ℕ) (xs : List ℕ) → IsItem (short key xs) → (length xs ≤ 2) ⊎ (length xs ≡ 4)
data_length-short key xs h = ground (arith, h.1, h.2)

pub item_size-short :
    (key i size : ℕ) (xs rpt : List ℕ)
    → IsItem (short key xs)
    → item_size rpt size i key ≡ done (length xs, 1)
unfolding item_size
item_size-short key i size xs rpt h = ground (arith, h.0, h.1, h.2)

-- The page and the usage of a usage item with four bytes.
store_long_usage :
    (front xs rest : List ℕ) (key i : ℕ) (f : Found)
    → length front ≡ i
    → length xs ≡ 4
    → i + 4 < 2 ^ 31
    → All (λ b. b < 256) xs
    → let rpt = front ++ (key ∷ xs ++ rest) in
      (get_bytes rpt (length rpt) 2 (i + 2) ≡ done (value (drop 2 xs)))
      × (get_bytes rpt (length rpt) 2 i ≡ done (value (take 2 xs)))
store_long_usage front [] rest key i f l e s h = absurd (omega arith)
store_long_usage front (a ∷ []) rest key i f l e s h = absurd (omega arith)
store_long_usage front (a ∷ b ∷ []) rest key i f l e s h = absurd (omega arith)
store_long_usage front (a ∷ b ∷ c ∷ []) rest key i f l e s h = absurd (omega arith)
store_long_usage front (a ∷ b ∷ c ∷ d ∷ g ∷ xs) rest key i f l e s h = absurd (omega arith)
store_long_usage front (a ∷ b ∷ c ∷ d ∷ []) rest key i f l e s h =
    let head : List ℕ = key ∷ a ∷ [] in
    let assoc = append_assoc front head (b ∷ c ∷ d ∷ rest) in
    let high =
      get_bytes-value (front ++ head) (c ∷ d ∷ []) rest b (i + 2) 2
        (omega (arith, length-append front head)) (omega arith) (omega arith) h.1.1
        (inl (omega arith)) in
    let low =
      get_bytes-value front (a ∷ b ∷ []) (c ∷ d ∷ rest) key i 2 l (omega arith) (omega arith)
        (h.0, (h.1.0, tt)) (inl (omega arith)) in
    (rw assoc at high, low)

pub store_item-short :
    (front xs rest : List ℕ) (key i : ℕ) (f : Found)
    → length front ≡ i
    → i + length xs < 2 ^ 31
    → IsItem (short key xs)
    → let rpt = front ++ (key ∷ xs ++ rest) in
      store_item rpt (length rpt) i (bit_and key 0xfc) (length xs) f ≡ done (says (short key xs) f)
unfolding store_item
store_item-short front xs rest key i f l s h =
    let v =
      get_bytes-value front xs rest key i (length xs) l refl s h.3 (data_length-short key xs h) in
    elim (Bool-cases (length xs == 4)) [
      | inl e ↦
          let w = store_long_usage front xs rest key i f l (ground arith) (ground arith) h.3 in
          ground (arith, v, w.0, w.1)
      | inr e ↦ ground (arith, v)
    ]
