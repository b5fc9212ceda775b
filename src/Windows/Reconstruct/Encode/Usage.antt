-- ===== src/Windows/Reconstruct/Encode/Usage.antt =====
-- The descriptor that is written, and what `get_usage` of hidapi/libusb/hid.c reads in it.
use usb_hid_tool.Prelude.{
  ℕ, ◌<◌, ◌≤◌, ◌≡◌, ◌≢◌, ◌^◌, refl, sym, ap, ap₂, ◌∙◌, true, List, [], ◌∷◌, ◌++◌, Option, length,
  length-take, inl, arith, take_all,
}
use usb_hid_tool.Prelude.Int.{pos}
use usb_hid_tool.Run.{done, Returns, Returns-mono, All, append_assoc}
use usb_hid_tool.Libusb.Usage.{get_usage, Found}
use usb_hid_tool.Libusb.Usage.Encoding.{encode, first_usage}
use usb_hid_tool.Libusb.Usage.Items.{get_usage-first_usage}
use usb_hid_tool.Windows.Reconstruct.Items.Keys.{written}
use usb_hid_tool.Windows.Reconstruct.Items.Buffer.{append_nil, length-written}
use usb_hid_tool.Windows.Reconstruct.Encode.Written.{Writes, Writes-append, emit-IsWriter}
use usb_hid_tool.Windows.Reconstruct.Items.{rd_local_usage, rd_main_collection}
use usb_hid_tool.Windows.Reconstruct.Preparsed.{
  PreparsedData, RdMainItemNode, Cap, CollectionNode, rd_collection, read_int,
}
use usb_hid_tool.Windows.Reconstruct.Emit.{Encoder, emit, unless_inhibited, write_collection}
use usb_hid_tool.Windows.Reconstruct.Encode.{
  initial, write_descriptor, write_nodes, first, write_node,
}
use usb_hid_tool.Windows.Reconstruct.Encode.Nodes.{IsNode}
use usb_hid_tool.Windows.Reconstruct.Encode.Descriptor.{write_nodes-Wrote, All-length}
use usb_hid_tool.Windows.Reconstruct.Encode.First.{
  nothing_found, both_found, first_usage-both, emit_u16, TellsUsage, page_written,
  write_usage_page-first, page_written-first,
}

TellsUsage-append : (f : Found) (a b c : Encoder) → TellsUsage f a b → Writes b c → TellsUsage f a c
TellsUsage-append f a b c t v =
    let w = Writes-append a b c t.0 v in
    (
      w.0,
      λ rest.
          ap (λ l. first_usage l nothing_found)
            (ap (λ l. l ++ rest) w.1 ∙ append_assoc t.0.items v.items rest)
          ∙ t.1 (v.items ++ rest),
    )

two_written :
    (node : CollectionNode) (caps : List Cap) (buf : List ℕ)
    → node.link_usage_page < 2 ^ 16
    → node.link_usage < 2 ^ 16
    → TellsUsage
        (both_found node.link_usage_page node.link_usage)
        (initial caps buf)
        (emit rd_local_usage (pos node.link_usage) (page_written node.link_usage_page caps buf))
two_written node caps buf p u =
    let start = page_written-first node.link_usage_page caps buf p in
    let usage =
      emit_u16 rd_local_usage node.link_usage (page_written node.link_usage_page caps buf) u refl
        refl start.4.extended.0 in
    let both =
      Writes-append (initial caps buf) (page_written node.link_usage_page caps buf)
        (emit rd_local_usage (pos node.link_usage) (page_written node.link_usage_page caps buf))
        start.4 usage.5 in
    (
      both.0,
      λ rest.
          ap (λ l. first_usage (l ++ rest) nothing_found) (both.1 ∙ ap₂ ◌++◌ start.5 usage.6)
          ∙ first_usage-both start.0 usage.0 node.link_usage_page node.link_usage start.1 usage.1
              rest start.3 usage.4 usage.2 start.2 usage.3 p u,
    )

-- The collection that starts a descriptor.
write_collection-first :
    (node : CollectionNode) (caps : List Cap) (buf : List ℕ)
    → node.link_usage_page ≢ 0
    → node.link_usage_page < 2 ^ 16
    → node.link_usage < 2 ^ 16
    → TellsUsage
        (both_found node.link_usage_page node.link_usage)
        (initial caps buf)
        (write_collection node (initial caps buf))
unfolding write_collection unless_inhibited page_written emit
write_collection-first node caps buf z p u =
    let two = two_written node caps buf p u in
    let both =
      emit rd_local_usage (pos node.link_usage) (page_written node.link_usage_page caps buf) in
    let last =
      emit-IsWriter rd_main_collection (pos node.collection_type) (inl refl) both
        two.0.extended.0 in
    rw (write_usage_page-first node.link_usage_page caps buf z) (
      TellsUsage-append (both_found node.link_usage_page node.link_usage) (initial caps buf) both
        (emit rd_main_collection (pos node.collection_type) both) two last)

-- What was written tells the usage, where it is not cut.
abbrev pub IsRead : Found → Encoder → Type 0
IsRead f e =
    e.rpt_desc.byte_idx < length e.rpt_desc.buf
    → get_usage (written e.rpt_desc) e.rpt_desc.byte_idx ≡ done (true, f)

TellsUsage-IsRead :
    (f : Found) (caps : List Cap) (buf : List ℕ) (e : Encoder)
    → length buf ≤ 2 ^ 30
    → TellsUsage f (initial caps buf) e
    → IsRead f e
TellsUsage-IsRead f caps buf e s t h =
    let x = t.0.extended in
    let n = length-written e.rpt_desc x.0 in
    let fits : length (encode t.0.items) ≤ length buf = omega (
      arith,
      length-take (length buf) (encode t.0.items),
      ap (λ l. length l) x.2,
      n,
      h,
      x.0.1,
      x.1,
    ) in
    let same : written e.rpt_desc ≡ encode t.0.items =
      x.2 ∙ take_all (length buf) (encode t.0.items) fits in
    let size : e.rpt_desc.byte_idx ≡ length (encode t.0.items) = sym n ∙ ap (λ l. length l) same in
    rw same (
      rw size (
        get_usage-first_usage t.0.items t.0.formed (omega arith)
        ∙ ap done (ap (λ l. first_usage l nothing_found) (sym (append_nil t.0.items)) ∙ t.1 [])))

write_node-collection :
    (nodes : List CollectionNode) (item : RdMainItemNode) (next : Option RdMainItemNode)
    (e : Encoder) (node : CollectionNode)
    → item.main_item_type ≡ rd_collection
    → read_int nodes item.collection_index ≡ done node
    → write_node nodes item next e ≡ done (write_collection node e)
unfolding write_node
write_node-collection nodes item next e node t r = rw t (rw r refl)

-- Where the first node opens a collection with a usage page other than 0, the descriptor of at most
-- 2^30 bytes is written; if it leaves room in the array, `get_usage` of the libusb backend finds the
-- usage page and the usage of that collection in it.
pub get_usage-write_descriptor :
    (pp_data : PreparsedData) (item : RdMainItemNode) (items : List RdMainItemNode) (buf : List ℕ)
    (node : CollectionNode)
    → item.main_item_type ≡ rd_collection
    → read_int pp_data.link_collection_nodes item.collection_index ≡ done node
    → node.link_usage_page ≢ 0
    → node.link_usage_page < 2 ^ 16
    → node.link_usage < 2 ^ 16
    → All (IsNode pp_data.link_collection_nodes pp_data.caps) (item ∷ items)
    → length buf ≤ 2 ^ 30
    → Returns
        (IsRead (both_found node.link_usage_page node.link_usage))
        (write_descriptor pp_data (item ∷ items) buf)
unfolding write_descriptor write_nodes
get_usage-write_descriptor pp_data item items buf node t r z p u n s =
    let nodes = pp_data.link_collection_nodes in
    let e = initial pp_data.caps buf in
    let found = both_found node.link_usage_page node.link_usage in
    let start = write_collection-first node pp_data.caps buf z p u in
    rw (write_node-collection nodes item (first items) e node t r) (
      Returns-mono (write_nodes nodes items (write_collection node e))
        (λ y v.
          TellsUsage-IsRead found pp_data.caps buf y s
            (TellsUsage-append found e (write_collection node e) y start v))
        (write_nodes-Wrote nodes items (write_collection node e)
          (All-length nodes pp_data.caps (write_collection node e).caps items start.0.kept n.1)
          start.0.extended.0))
