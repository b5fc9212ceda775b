-- ===== src/Windows/Reconstruct/Encode/Nodes.antt =====
-- The indices of a node, and the parts of the loop that read at them.
use usb_hid_tool.Prelude.{
  ◌<◌, ◌≡◌, ◌⊎◌, refl, subst, Bool, true, false, not, ◌&&◌, List, [], ◌∷◌, Option, none, some,
  if◌then◌else◌, length, inl, inr, arith, ltb,
}
use usb_hid_tool.Prelude.Int.{ℤ, pos, negsuc, minus_one, ◌==ℤ◌}
use usb_hid_tool.Run.{Run, done, ◌>>=◌, Returns, Returns-bind, Returns-read, All}
use usb_hid_tool.Windows.Reconstruct.Items.Keys.{IsBuffer}
use usb_hid_tool.Windows.Reconstruct.Encode.Written.{Writes, Writes-refl, Writes-next, Writes-emit}
use usb_hid_tool.Windows.Reconstruct.Preparsed.{
  ◌=m=◌, Cap, CollectionNode, RdMainItemNode, RdMainItems, is_padding, main_item_number, read_int,
  RdNodeType, is_cap, rd_item_node_cap, rd_item_node_collection, rd_item_node_padding,
}
use usb_hid_tool.Windows.Reconstruct.Emit.{
  Encoder, write_delimiter_open, write_delimiter_usage, write_usages, write_cap_usages,
  write_collection_usage, emit,
}
use usb_hid_tool.Windows.Reconstruct.Encode.{next_cap, done}
use usb_hid_tool.Windows.Reconstruct.Encode.Writers.{
  write_usage_page-IsWriter, write_usages-IsWriter,
}
use usb_hid_tool.Windows.Reconstruct.Items.{rd_local_usage}

-- An index of a list.
abbrev pub IsIndex {ℓ} : {A : Type ℓ} → List A → ℤ → Type 0
IsIndex xs (pos n) = n < length xs
IsIndex xs (negsuc n) = ⊥

-- An input, output or feature item.
abbrev pub is_field : RdMainItems → Bool
is_field type = ltb (main_item_number type) 3

-- The indices of a node: its collection is one of the preparsed data, and so is the capability of one
-- that is no padding; the nodes of a collection have a capability 0, which is not read.
abbrev pub IsNode : List CollectionNode → List Cap → RdMainItemNode → Type 0
IsNode nodes caps item =
    IsIndex nodes item.collection_index
    × (((is_field item.main_item_type ≡ false) × (item.caps_index ≡ pos 0))
        ⊎ (((is_padding item.type_of_node ≡ true) × (is_field item.main_item_type ≡ true))
            ⊎ IsIndex caps item.caps_index))

-- The part of the loop returns, and has written items.
abbrev pub Wrote : Encoder → Run Encoder → Type 0
Wrote e r = Returns (Writes e) r

All-unit {ℓ} : {A : Type ℓ} (xs : List A) → All {ℓ, 0} (λ _. Unit) xs
All-unit [] = tt
All-unit (x ∷ xs) = (tt, All-unit xs)

Returns-read_int {ℓ} :
    {A : Type ℓ} (xs : List A) (z : ℤ) → IsIndex xs z → Returns (λ _. Unit) (read_int xs z)
Returns-read_int xs (pos n) h = Returns-read (λ _. Unit) xs n (All-unit xs) h
Returns-read_int xs (negsuc n) h = absurd h

-- What follows a read at an index.
pub Wrote-read {ℓ} :
    {A : Type ℓ} (xs : List A) (z : ℤ) (e : Encoder) (f : A → Run Encoder)
    → IsIndex xs z
    → ((a : A) → Wrote e (f a))
    → Wrote e (read_int xs z >>= f)
Wrote-read xs z e f h k =
    Returns-bind (λ _. Unit) (Writes e) (read_int xs z) f (Returns-read_int xs z h) (λ a _ _. k a)

pub Wrote-bind :
    (e : Encoder) (m : Run Encoder) (f : Encoder → Run Encoder)
    → Wrote e m
    → ((x : Encoder) → Writes e x → Wrote e (f x))
    → Wrote e (m >>= f)
Wrote-bind e m f h k = Returns-bind (Writes e) (Writes e) m f h (λ x _ w. k x w)

pub Wrote-if :
    (t : Bool) (e : Encoder) (x y : Run Encoder)
    → (t ≡ true → Wrote e x)
    → (t ≡ false → Wrote e y)
    → Wrote e (if t then x else y)
Wrote-if true e x y h k = h refl
Wrote-if false e x y h k = k refl

-- The index of a list as long as another.
pub IsIndex-length {ℓ} :
    {A : Type ℓ} (xs ys : List A) (z : ℤ) → length ys ≡ length xs → IsIndex xs z → IsIndex ys z
IsIndex-length xs ys (pos n) e h = omega (arith, e, h)
IsIndex-length xs ys (negsuc n) e h = h

IsIndex-minus_one {ℓ} :
    {A : Type ℓ} (xs : List A) (z : ℤ) → IsIndex xs z → not (z ==ℤ minus_one) ≡ false → ⊥
IsIndex-minus_one xs (pos n) h e = ground (arith, e)
IsIndex-minus_one xs (negsuc n) h e = h

pub write_delimiter_open-Wrote :
    (nodes : List CollectionNode) (item : RdMainItemNode) (e : Encoder)
    → IsNode nodes e.caps item
    → IsBuffer e.rpt_desc
    → Wrote e (write_delimiter_open nodes item e)
unfolding write_delimiter_open
write_delimiter_open-Wrote nodes item e n h =
    Wrote-bind e _ _
      (Wrote-if _ e _ _
        (λ t.
          Wrote-read nodes item.collection_index e _ n.0
            (λ node. write_usage_page-IsWriter node.link_usage_page e h))
        (λ t. absurd (IsIndex-minus_one nodes item.collection_index n.0 t)))
      (λ x w. Writes-emit _ _ refl w)

not_zero : (z : ℤ) → z ≡ pos 0 → not (z ==ℤ pos 0) ≡ true → ⊥
not_zero z e h = ground (arith, subst (λ y. not (y ==ℤ pos 0) ≡ true) e h)

-- A capability that a delimiter reads.
IsNode-delimiter :
    (nodes : List CollectionNode) (caps : List Cap) (item : RdMainItemNode)
    → IsNode nodes caps item
    → is_field item.main_item_type ≡ false
    → not (item.caps_index ==ℤ pos 0) ≡ true
    → IsIndex caps item.caps_index
IsNode-delimiter nodes caps item n d r = elim n.1 [
  | inl f ↦ absurd (not_zero item.caps_index f.1 r)
  | inr (inl q) ↦ absurd (ground (arith, q.1, d))
  | inr (inr i) ↦ i
]

-- A capability that a field reads.
pub IsNode-field :
    (nodes : List CollectionNode) (caps : List Cap) (item : RdMainItemNode)
    → IsNode nodes caps item
    → is_padding item.type_of_node ≡ false
    → is_field item.main_item_type ≡ true
    → IsIndex caps item.caps_index
IsNode-field nodes caps item n p d = elim n.1 [
  | inl f ↦ absurd (ground (arith, f.0, d))
  | inr (inl q) ↦ absurd (ground (arith, q.0, p))
  | inr (inr i) ↦ i
]

write_collection_usage-Wrote :
    (nodes : List CollectionNode) (item : RdMainItemNode) (e : Encoder)
    → IsIndex nodes item.collection_index
    → IsBuffer e.rpt_desc
    → Wrote e (write_collection_usage nodes item e)
unfolding write_collection_usage
write_collection_usage-Wrote nodes item e n h =
    let usage : CollectionNode → Run Encoder =
      λ node. done (emit rd_local_usage (pos node.link_usage) e) in
    Wrote-if (not (item.collection_index ==ℤ minus_one)) e
      (read_int nodes item.collection_index >>= usage) (done e)
      (λ t.
        Wrote-read nodes item.collection_index e usage n
          (λ node. Writes-emit rd_local_usage (pos node.link_usage) refl (Writes-refl e h)))
      (λ t. Writes-refl e h)

write_cap_usages-Wrote :
    (item : RdMainItemNode) (e x : Encoder)
    → (not (item.caps_index ==ℤ pos 0) ≡ true → IsIndex x.caps item.caps_index)
    → Writes e x
    → Wrote e (write_cap_usages item x)
unfolding write_cap_usages
write_cap_usages-Wrote item e x i w =
    Wrote-if _ e _ _
      (λ t.
        Wrote-read x.caps item.caps_index e _ (i t)
          (λ cap. Writes-next (write_usages cap) (write_usages-IsWriter cap) w))
      (λ t. w)

pub write_delimiter_usage-Wrote :
    (nodes : List CollectionNode) (item : RdMainItemNode) (e : Encoder)
    → IsNode nodes e.caps item
    → is_field item.main_item_type ≡ false
    → IsBuffer e.rpt_desc
    → Wrote e (write_delimiter_usage nodes item e)
unfolding write_delimiter_usage
write_delimiter_usage-Wrote nodes item e n p h =
    Wrote-bind e (write_collection_usage nodes item e) (write_cap_usages item)
      (write_collection_usage-Wrote nodes item e n.0 h)
      (λ x w.
        write_cap_usages-Wrote item e x
          (λ t.
            IsIndex-length e.caps x.caps item.caps_index w.kept
              (IsNode-delimiter nodes e.caps item n p t))
          w)

Returns-if :
    {A : Type 0} (t : Bool) (x y : Run A)
    → (t ≡ true → Returns (λ _. Unit) x)
    → (t ≡ false → Returns (λ _. Unit) y)
    → Returns (λ _. Unit) (if t then x else y)
Returns-if true x y h k = h refl
Returns-if false x y h k = k refl

is_cap-not_padding : (t : RdNodeType) → is_cap t ≡ true → is_padding t ≡ false
is_cap-not_padding rd_item_node_cap h = refl
is_cap-not_padding rd_item_node_padding h = ground (arith, h)
is_cap-not_padding rd_item_node_collection h = refl

-- A node of the same type as an input, output or feature item, that of a capability.
next_cap-test :
    (a b : RdMainItems) (t : RdNodeType)
    → (a =m= b && is_cap t) ≡ true
    → is_field b ≡ true
    → (is_field a ≡ true) × (is_cap t ≡ true)
next_cap-test a b t h k = ground (arith, h, k)

-- The node behind another is read only where it is of a capability of the same type.
pub Returns-next_cap :
    (nodes : List CollectionNode) (caps : List Cap) (item : RdMainItemNode)
    (next : Option RdMainItemNode)
    → is_field item.main_item_type ≡ true
    → ((x : RdMainItemNode) → next ≡ some x → IsNode nodes caps x)
    → Returns (λ _. Unit) (next_cap caps item next)
Returns-next_cap nodes caps item none f n = tt
Returns-next_cap nodes caps item (some x) f n =
    Returns-if _ _ _
      (λ t.
        let both = next_cap-test x.main_item_type item.main_item_type x.type_of_node t f in
        Returns-bind (λ _. Unit) (λ _. Unit) (read_int caps x.caps_index) _
          (Returns-read_int caps x.caps_index (
            IsNode-field nodes caps x (n x refl) (is_cap-not_padding x.type_of_node both.1) both.0))
          (λ a _ _. tt))
      (λ t. tt)
