-- ===== src/Windows/Reconstruct/Encode/Descriptor.antt =====
-- The loop over the list of main items, and the descriptor that it writes.
use usb_hid_tool.Prelude.{
  ◌≡◌, refl, sym, ◌∙◌, subst, true, false, List, [], ◌∷◌, Option, some, if◌then◌else◌, length, inl,
  inr, arith, length-set,
}
use mathlib.Core.Option.{some-injective}
use usb_hid_tool.Prelude.Int.{ℤ, pos, ◌⊖◌, to_nat}
use usb_hid_tool.Run.{done, Returns-bind, Returns-mono, All}
use usb_hid_tool.Windows.Reconstruct.Items.Keys.{IsBuffer}
use usb_hid_tool.Windows.Reconstruct.Encode.Written.{
  Writes, Writes-same, Writes-refl, Writes-trans, Writes-next, Writes-if, emit-IsWriter,
}
use usb_hid_tool.Windows.Reconstruct.Preparsed.{
  ◌=m=◌, Cap, CollectionNode, RdMainItemNode, RdMainItems, is_padding, rd_collection,
  rd_collection_end, rd_delimiter_close, rd_delimiter_open, rd_delimiter_usage, rd_feature,
  rd_input, rd_output,
}
use usb_hid_tool.Windows.Reconstruct.Emit.{Encoder, write_changed, write_locals, write_padding}
use usb_hid_tool.Windows.Reconstruct.Encode.{
  next_cap, add_report_count, differs_first_bit, joins_button, write_button, write_button_field,
  array_count, joins_value, overwrite_count, write_value_end, write_value_field, done, write_field,
  write_node, write_value, first, write_nodes,
}
use usb_hid_tool.Windows.Reconstruct.Encode.Writers.{
  write_button_field-IsWriter, write_changed-IsWriter, write_locals-IsWriter,
  write_value_field-IsWriter, write_collection-IsWriter, write_padding-IsWriter,
  write_delimiter_close-IsWriter,
}
use usb_hid_tool.Windows.Reconstruct.Items.{rd_main_collection_end}
use usb_hid_tool.Windows.Reconstruct.Encode.Nodes.{
  IsIndex, is_field, IsNode, Wrote, Wrote-read, Wrote-bind, Wrote-if, IsIndex-length,
  write_delimiter_open-Wrote, IsNode-field, write_delimiter_usage-Wrote, Returns-next_cap,
}

IsNode-length :
    (nodes : List CollectionNode) (xs ys : List Cap) (item : RdMainItemNode)
    → length ys ≡ length xs
    → IsNode nodes xs item
    → IsNode nodes ys item
IsNode-length nodes xs ys item e n = (
  n.0,
  elim n.1 [
    | inl f ↦ inl f
    | inr (inl q) ↦ inr (inl q)
    | inr (inr i) ↦ inr (inr (IsIndex-length xs ys item.caps_index e i))
  ],
)

abbrev IsNext : List CollectionNode → List Cap → Option RdMainItemNode → Type 0
IsNext nodes caps next = (x : RdMainItemNode) → next ≡ some x → IsNode nodes caps x

write_button-Wrote :
    (nodes : List CollectionNode) (cap : Cap) (item : RdMainItemNode) (next : Option RdMainItemNode)
    (e : Encoder)
    → is_field item.main_item_type ≡ true
    → IsNext nodes e.caps next
    → IsBuffer e.rpt_desc
    → Wrote e (write_button cap item next e)
unfolding write_button
write_button-Wrote nodes cap item next e f n h =
    let ranged =
      if cap.is_range then add_report_count (cap.data_index_max ⊖ cap.data_index_min) e else e in
    let start : Writes e ranged =
      Writes-if cap.is_range e _ _ (Writes-same (Writes-refl e h) refl refl) (Writes-refl e h) in
    let w : Writes e (write_locals cap (write_changed cap ranged)) =
      Writes-next (write_locals cap) (write_locals-IsWriter cap)
        (Writes-next (write_changed cap) (write_changed-IsWriter cap) start) in
    Returns-bind (λ _. Unit) (Writes e)
      (next_cap (write_locals cap (write_changed cap ranged)).caps item next) _
      (Returns-next_cap nodes (write_locals cap (write_changed cap ranged)).caps item next f (λ x i.
        IsNode-length nodes e.caps (write_locals cap (write_changed cap ranged)).caps x w.kept
          (n x i)))
      (λ following _ _.
        Writes-if (joins_button cap following) e _ _
          (Writes-if (differs_first_bit item next) e _ _ (Writes-same w refl refl) w)
          (Writes-next (write_button_field cap item) (write_button_field-IsWriter cap item) w))

overwrite_count-Writes :
    (cap : Cap) (z : ℤ) (e x : Encoder) → Writes e x → Writes e (overwrite_count cap z x)
unfolding overwrite_count
overwrite_count-Writes cap z e x w = Writes-if _ e _ _ w (record {
  kept = length-set x.caps (to_nat z) (record cap { report_count = array_count cap }) ∙ w.kept;
  items = w.items;
  formed = w.formed;
  extended = w.extended;
})

write_value_end-Wrote :
    (nodes : List CollectionNode) (item : RdMainItemNode) (next : Option RdMainItemNode)
    (e x : Encoder)
    → is_field item.main_item_type ≡ true
    → IsIndex e.caps item.caps_index
    → IsNext nodes e.caps next
    → Writes e x
    → Wrote e (write_value_end item next x)
unfolding write_value_end
write_value_end-Wrote nodes item next e x f i n w =
    Wrote-read x.caps item.caps_index e _ (IsIndex-length e.caps x.caps item.caps_index w.kept i)
      (λ cap.
        Returns-bind (λ _. Unit) (Writes e) (next_cap x.caps item next) _
          (Returns-next_cap nodes x.caps item next f
            (λ y k. IsNode-length nodes e.caps x.caps y w.kept (n y k)))
          (λ following _ _.
            Writes-if (joins_value cap following) e _ _ (Writes-same w refl refl)
              (Writes-next (write_value_field cap item) (write_value_field-IsWriter cap item) w)))

write_value-Wrote :
    (nodes : List CollectionNode) (cap : Cap) (item : RdMainItemNode) (next : Option RdMainItemNode)
    (e : Encoder)
    → is_field item.main_item_type ≡ true
    → IsIndex e.caps item.caps_index
    → IsNext nodes e.caps next
    → IsBuffer e.rpt_desc
    → Wrote e (write_value cap item next e)
unfolding write_value
write_value-Wrote nodes cap item next e f i n h = write_value_end-Wrote nodes item next e _ f i n (
    overwrite_count-Writes cap item.caps_index e _
      (Writes-next (write_locals cap) (write_locals-IsWriter cap) (write_changed-IsWriter cap e h)))

write_field-Wrote :
    (nodes : List CollectionNode) (item : RdMainItemNode) (next : Option RdMainItemNode)
    (e : Encoder)
    → IsNode nodes e.caps item
    → IsNext nodes e.caps next
    → is_field item.main_item_type ≡ true
    → IsBuffer e.rpt_desc
    → Wrote e (write_field item next e)
unfolding write_field
write_field-Wrote nodes item next e i n f h =
    Wrote-if (is_padding item.type_of_node) e (done (write_padding item e)) _
      (λ t. write_padding-IsWriter item e h)
      (λ t.
        let index = IsNode-field nodes e.caps item i t f in
        Wrote-read e.caps item.caps_index e _ index (λ cap.
          Wrote-if cap.is_button_cap e (write_button cap item next e) (write_value cap item next e)
            (λ _. write_button-Wrote nodes cap item next e f n h)
            (λ _. write_value-Wrote nodes cap item next e f index n h)))

type_tests :
    (t : RdMainItems)
    → (t =m= rd_collection) ≡ false
    → (t =m= rd_collection_end) ≡ false
    → (t =m= rd_delimiter_open) ≡ false
    → (t =m= rd_delimiter_usage) ≡ false
    → (t =m= rd_delimiter_close) ≡ false
    → is_field t ≡ true
type_tests rd_input a b c d e = refl
type_tests rd_output a b c d e = refl
type_tests rd_feature a b c d e = refl
type_tests rd_collection a b c d e = sym a
type_tests rd_collection_end a b c d e = sym b
type_tests rd_delimiter_open a b c d e = sym c
type_tests rd_delimiter_usage a b c d e = sym d
type_tests rd_delimiter_close a b c d e = sym e

write_node-Wrote :
    (nodes : List CollectionNode) (item : RdMainItemNode) (next : Option RdMainItemNode)
    (e : Encoder)
    → IsNode nodes e.caps item
    → IsNext nodes e.caps next
    → IsBuffer e.rpt_desc
    → Wrote e (write_node nodes item next e)
unfolding write_node
write_node-Wrote nodes item next e i n h =
    Wrote-if (item.main_item_type =m= rd_collection) e _ _
      (λ t.
        Wrote-read nodes item.collection_index e _ i.0 (λ node. write_collection-IsWriter node e h))
      (λ a.
        Wrote-if (item.main_item_type =m= rd_collection_end) e _ _
          (λ t. emit-IsWriter rd_main_collection_end (pos 0) (inr refl) e h)
          (λ b.
            Wrote-if (item.main_item_type =m= rd_delimiter_open) e _ _
              (λ t. write_delimiter_open-Wrote nodes item e i h)
              (λ c.
                Wrote-if (item.main_item_type =m= rd_delimiter_usage) e _ _
                  (λ t. write_delimiter_usage-Wrote nodes item e i (ground (arith, t)) h)
                  (λ d.
                    Wrote-if (item.main_item_type =m= rd_delimiter_close) e _ _
                      (λ t. write_delimiter_close-IsWriter e h)
                      (λ f.
                        write_field-Wrote nodes item next e i n
                          (type_tests item.main_item_type a b c d f) h)))))

first-IsNext :
    (nodes : List CollectionNode) (caps : List Cap) (items : List RdMainItemNode)
    → All (IsNode nodes caps) items
    → IsNext nodes caps (first items)
first-IsNext nodes caps [] h x e = absurd (ground (arith, e))
first-IsNext nodes caps (item ∷ items) h x e = subst (IsNode nodes caps) (some-injective _ _ e) h.0

pub All-length :
    (nodes : List CollectionNode) (xs ys : List Cap) (items : List RdMainItemNode)
    → length ys ≡ length xs
    → All (IsNode nodes xs) items
    → All (IsNode nodes ys) items
All-length nodes xs ys [] e h = tt
All-length nodes xs ys (item ∷ items) e h =
    (IsNode-length nodes xs ys item e h.0, All-length nodes xs ys items e h.1)

pub write_nodes-Wrote :
    (nodes : List CollectionNode) (items : List RdMainItemNode) (e : Encoder)
    → All (IsNode nodes e.caps) items
    → IsBuffer e.rpt_desc
    → Wrote e (write_nodes nodes items e)
unfolding write_nodes
write_nodes-Wrote nodes [] e n h = Writes-refl e h
write_nodes-Wrote nodes (item ∷ items) e n h =
    Wrote-bind e (write_node nodes item (first items) e) (write_nodes nodes items)
      (write_node-Wrote nodes item (first items) e n.0 (first-IsNext nodes e.caps items n.1) h)
      (λ x w.
        Returns-mono (write_nodes nodes items x) (λ y v. Writes-trans e x y w v)
          (write_nodes-Wrote nodes items x (All-length nodes e.caps x.caps items w.kept n.1)
            w.extended.0))
