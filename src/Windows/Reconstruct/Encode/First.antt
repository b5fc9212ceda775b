-- ===== src/Windows/Reconstruct/Encode/First.antt =====
-- The items that a descriptor starts with.
use usb_hid_tool.Prelude.{
  ℕ, ◌<◌, ◌≤◌, ◌≡◌, ◌≢◌, ◌^◌, refl, sym, ◌==◌, subst, true, false, List, [], ◌∷◌, ◌++◌, none, some,
  length, arith, bit_and,
}
use usb_hid_tool.Prelude.Int.{pos}
use usb_hid_tool.Libusb.Usage.{Found}
use usb_hid_tool.Libusb.Usage.Encoding.{Item, short, value, first_usage}
use usb_hid_tool.Windows.Reconstruct.Items.Keys.{IsBuffer, size_code}
use usb_hid_tool.Windows.Reconstruct.Items.Buffer.{IsExtended, append_nil}
use usb_hid_tool.Windows.Reconstruct.Items.Encoding.{rd_write_short_item-u16}
use usb_hid_tool.Windows.Reconstruct.Encode.Written.{Writes}
use usb_hid_tool.Windows.Reconstruct.Items.{
  ◌is◌, RdItems, code, is_signed_item, prefix_byte, rd_main_collection_end, rd_global_usage_page,
  rd_write_short_item,
}
use usb_hid_tool.Windows.Reconstruct.Preparsed.{Cap}
use usb_hid_tool.Windows.Reconstruct.Emit.{Encoder, emit, write_usage_page}
use usb_hid_tool.Windows.Reconstruct.Encode.{initial}

abbrev pub nothing_found : Found
nothing_found = record { usage_page = none; usage = none }

abbrev pub both_found : ℕ → ℕ → Found
both_found page usage = record { usage_page = some page; usage = some usage }

-- A usage page and a usage behind it, of at most two bytes each, end the search.
pub first_usage-both :
    (key key' page usage : ℕ) (xs ys : List ℕ) (rest : List Item)
    → bit_and key 0xfc ≡ 0x4
    → bit_and key' 0xfc ≡ 0x8
    → length ys ≤ 2
    → value xs ≡ page
    → value ys ≡ usage
    → page < 2 ^ 16
    → usage < 2 ^ 16
    → first_usage (short key xs ∷ short key' ys ∷ rest) nothing_found
      ≡ (true, both_found page usage)
first_usage-both key key' page usage xs ys rest k k' l v v' p u = ground (arith, k, k', l, v, v')

pub emit_u16 :
    (item : RdItems) (n : ℕ) (e : Encoder)
    → n < 2 ^ 16
    → (item is rd_main_collection_end) ≡ false
    → is_signed_item item ≡ false
    → IsBuffer e.rpt_desc
    → (key : ℕ) × (xs : List ℕ) × (length xs ≤ 2)
      × (value xs ≡ n)
      × (bit_and key 0xfc ≡ code item)
      × (w : Writes e (emit item (pos n) e)) × (w.items ≡ short key xs ∷ [])
unfolding emit
emit_u16 item n e h c s i =
    let a = rd_write_short_item-u16 item n e.rpt_desc h c s i in
    (
      prefix_byte item (size_code a.0),
      a.0,
      a.1,
      a.2,
      a.4,
      record {
        kept = refl;
        items = short (prefix_byte item (size_code a.0)) a.0 ∷ [];
        formed = (a.3, tt);
        extended =
            subst
              (λ l.
                IsExtended (prefix_byte item (size_code a.0) ∷ l) e.rpt_desc
                  (rd_write_short_item item (pos n) e.rpt_desc).1)
              (sym (append_nil a.0)) a.5;
      },
      refl,
    )

-- What is written starts with a usage page and a usage.
abbrev pub TellsUsage : Found → Encoder → Encoder → Type 0
TellsUsage f e e' =
    (w : Writes e e') × ((rest : List Item)
      → first_usage (w.items ++ rest) nothing_found ≡ (true, f))

unfoldable pub page_written : (page : ℕ) (caps : List Cap) (buf : List ℕ) → Encoder
page_written page caps buf = record (emit rd_global_usage_page (pos page) (initial caps buf)) {
  last_usage_page = page;
}

pub write_usage_page-first :
    (page : ℕ) (caps : List Cap) (buf : List ℕ)
    → page ≢ 0
    → write_usage_page page (initial caps buf) ≡ page_written page caps buf
unfolding write_usage_page page_written
write_usage_page-first page caps buf h =
    let t : (page == 0) ≡ false = ground (arith, h) in rw t refl

pub page_written-first :
    (page : ℕ) (caps : List Cap) (buf : List ℕ)
    → page < 2 ^ 16
    → (key : ℕ) × (xs : List ℕ) × (value xs ≡ page)
      × (bit_and key 0xfc ≡ 0x4)
      × (w : Writes (initial caps buf) (page_written page caps buf)) × (w.items ≡ short key xs ∷ [])
unfolding page_written
page_written-first page caps buf h =
    let a = emit_u16 rd_global_usage_page page (initial caps buf) h refl refl (omega arith, refl) in
    (
      a.0,
      a.1,
      a.3,
      a.4,
      record { kept = a.5.kept; items = a.5.items; formed = a.5.formed; extended = a.5.extended },
      a.6,
    )
