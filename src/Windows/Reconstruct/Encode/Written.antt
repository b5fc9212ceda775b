-- ===== src/Windows/Reconstruct/Encode/Written.antt =====
-- Each part of the loop that writes the descriptor writes well-formed items.
use usb_hid_tool.Prelude.{
  ◌≡◌, ◌⊎◌, refl, sym, ap, ◌∙◌, subst, Bool, true, false, List, [], ◌∷◌, ◌++◌, if◌then◌else◌,
  length, inl, inr,
}
use usb_hid_tool.Prelude.Int.{ℤ, pos}
use usb_hid_tool.Run.{All, All-append, append_assoc}
use usb_hid_tool.Libusb.Usage.Encoding.{Item, short, long, encode, IsItem}
use usb_hid_tool.Windows.Reconstruct.Items.{
  RdItems, RdBuffer, ◌is◌, rd_main_collection_end, rd_write_short_item, prefix_byte,
}
use usb_hid_tool.Windows.Reconstruct.Items.Keys.{IsBuffer, size_code}
use usb_hid_tool.Windows.Reconstruct.Items.Buffer.{
  IsExtended, IsExtended-nil, IsExtended-append, append_nil,
}
use usb_hid_tool.Windows.Reconstruct.Items.Encoding.{IsShortItem, rd_write_short_item-IsShortItem}
use usb_hid_tool.Windows.Reconstruct.Emit.{Encoder, emit}

encode-append : (xs ys : List Item) → encode (xs ++ ys) ≡ encode xs ++ encode ys
encode-append [] ys = refl
encode-append (short key bytes ∷ xs) ys =
    ap (λ l. key ∷ l)
      (ap (λ l. bytes ++ l) (encode-append xs ys)
        ∙ sym (append_assoc bytes (encode xs) (encode ys)))
encode-append (long key tag bytes ∷ xs) ys =
    ap (λ l. key ∷ length bytes ∷ tag ∷ l)
      (ap (λ l. bytes ++ l) (encode-append xs ys)
        ∙ sym (append_assoc bytes (encode xs) (encode ys)))

-- Well-formed items are written behind what is in the buffer, and no capability is added or removed.
pub record Writes (e e' : Encoder) : Type 0 where
  pub kept : length e'.caps ≡ length e.caps
  pub items : List Item
  pub formed : All IsItem items
  pub extended : IsExtended (encode items) e.rpt_desc e'.rpt_desc

-- A function that writes items whatever the state is.
abbrev pub IsWriter : (Encoder → Encoder) → Type 0
IsWriter f = (e : Encoder) → IsBuffer e.rpt_desc → Writes e (f e)

pub Writes-refl : (e : Encoder) → IsBuffer e.rpt_desc → Writes e e
Writes-refl e h = record {
  kept = refl;
  items = [];
  formed = tt;
  extended = IsExtended-nil e.rpt_desc h;
}

-- The items of the second part stand behind those of the first.
pub Writes-append :
    (a b c : Encoder) (h : Writes a b) (k : Writes b c)
    → (w : Writes a c) × (w.items ≡ h.items ++ k.items)
Writes-append a b c h k = (
  record {
    kept = k.kept ∙ h.kept;
    items = h.items ++ k.items;
    formed = All-append IsItem h.items k.items h.formed k.formed;
    extended =
        subst (λ l. IsExtended l a.rpt_desc c.rpt_desc) (sym (encode-append h.items k.items))
          (IsExtended-append (encode h.items) (encode k.items) a.rpt_desc b.rpt_desc c.rpt_desc
            h.extended k.extended);
  },
  refl,
)

pub Writes-trans : (a b c : Encoder) → Writes a b → Writes b c → Writes a c
Writes-trans a b c h k = (Writes-append a b c h k).0

-- A writer behind what is written.
pub Writes-next : (f : Encoder → Encoder) {e x : Encoder} → IsWriter f → Writes e x → Writes e (f x)
Writes-next f {e} {x} w h = Writes-trans e x (f x) h (w x h.extended.0)

-- Only the buffer and the capabilities count.
pub Writes-same :
    {e x y : Encoder} → Writes e x → y.caps ≡ x.caps → y.rpt_desc ≡ x.rpt_desc → Writes e y
Writes-same {e} {x} {y} h c b = record {
  kept = ap (λ l. length l) c ∙ h.kept;
  items = h.items;
  formed = h.formed;
  extended = subst (IsExtended (encode h.items) e.rpt_desc) (sym b) h.extended;
}

pub Writes-if :
    (t : Bool) (e x y : Encoder) → Writes e x → Writes e y → Writes e (if t then x else y)
Writes-if true e x y h k = h
Writes-if false e x y h k = k

written_item :
    (item : RdItems) (z : ℤ) (b : RdBuffer) (r : ℤ × RdBuffer)
    → IsBuffer b
    → IsShortItem item z b r
    → (its : List Item) × All IsItem its × IsExtended (encode its) b r.1
written_item item z b r h (inl k) =
    let xs = k.2 in
    (
      short (prefix_byte item (size_code xs)) xs ∷ [],
      (k.3.0, tt),
      subst (λ l. IsExtended l b r.1)
          (ap (λ l. prefix_byte item (size_code xs) ∷ l) (sym (append_nil xs))) k.4,
    )
written_item item z b r h (inr k) = ([], tt, subst (IsExtended [] b) (sym k.2) (IsExtended-nil b h))

pub emit-IsWriter :
    (item : RdItems) (z : ℤ)
    → ((item is rd_main_collection_end) ≡ false) ⊎ (z ≡ pos 0)
    → IsWriter (emit item z)
unfolding emit
emit-IsWriter item z end e h =
    let w =
      written_item item z e.rpt_desc (rd_write_short_item item z e.rpt_desc) h
        (rd_write_short_item-IsShortItem item z e.rpt_desc h end) in
    record { kept = refl; items = w.0; formed = w.1; extended = w.2 }

-- An item other than the end of a collection.
pub Writes-emit :
    (item : RdItems) (z : ℤ) {e x : Encoder}
    → (item is rd_main_collection_end) ≡ false
    → Writes e x
    → Writes e (emit item z x)
Writes-emit item z n h = Writes-next (emit item z) (emit-IsWriter item z (inl n)) h
