-- ===== src/Libusb/Usage/Items.antt =====
-- `get_usage` on the encoding of a list of items.
use usb_hid_tool.Prelude.{
  ℕ, zero, suc, ◌+◌, ◌^◌, ◌≤◌, ◌<◌, ◌≡◌, refl, sym, ap, ◌∙◌, List, [], ◌∷◌, ◌++◌, none, length,
  length-append, arith,
}
use usb_hid_tool.Run.{done, read_at, append_assoc, All}
use usb_hid_tool.Libusb.Usage.{Found, item_size, store_item, usage_round, usage_loop, get_usage}
use usb_hid_tool.Libusb.Usage.Encoding.{
  Item, bytes_of, encode, IsItem, says, first_usage, item_size-short, store_item-short, short, long,
}

abbrev item_length : Item → ℕ
item_length (short key xs) = suc (length xs)
item_length (long key tag xs) = 3 + length xs

append_nil : (xs rest : List ℕ) → xs ++ rest ≡ (xs ++ []) ++ rest
append_nil [] rest = refl
append_nil (x ∷ xs) rest = ap (λ l. x ∷ l) (append_nil xs rest)

item_length-pos : (it : Item) → 0 < item_length it
item_length-pos (short key xs) = omega arith
item_length-pos (long key tag xs) = omega arith

usage_round-says :
    (it : Item) (front rest : List ℕ) (i : ℕ) (f : Found)
    → IsItem it
    → length front ≡ i
    → length (front ++ bytes_of it rest) ≤ 2 ^ 30
    → let rpt = front ++ bytes_of it rest in
      usage_round rpt (length rpt) i f ≡ done (i + item_length it, says it f)
unfolding usage_round
usage_round-says (short key xs) front rest i f h l s =
    let n : length (front ++ (key ∷ xs ++ rest)) ≡ length front + suc (length xs + length rest) =
      omega (arith, length-append front (key ∷ xs ++ rest), length-append xs rest) in
    let k = read_at front (key ∷ xs ++ rest) 0 i (omega arith) in
    let z =
      item_size-short key i (length (front ++ (key ∷ xs ++ rest))) xs (front ++ (key ∷ xs ++ rest))
        h in
    let st = store_item-short front xs rest key i f l (omega arith) h in ground (arith, k, z, st, n)
usage_round-says (long key tag xs) front rest i f h l s =
    let tail : List ℕ = key ∷ length xs ∷ tag ∷ xs ++ rest in
    let n : length (front ++ tail) ≡ length front + (3 + (length xs + length rest)) =
      omega (arith, length-append front tail, length-append xs rest) in
    let k = read_at front tail 0 i (omega arith) in
    let m = read_at front tail 1 (i + 1) (omega arith) in
    unfold item_size store_item in ground (arith, k, m, h.0, h.1, h.2, n)

bytes_of-append : (it : Item) (rest : List ℕ) → bytes_of it rest ≡ bytes_of it [] ++ rest
bytes_of-append (short key xs) rest = ap (λ l. key ∷ l) (append_nil xs rest)
bytes_of-append (long key tag xs) rest = ap (λ l. key ∷ length xs ∷ tag ∷ l) (append_nil xs rest)

length-bytes_of : (it : Item) → length (bytes_of it []) ≡ item_length it
length-bytes_of (short key xs) = omega (arith, length-append xs [])
length-bytes_of (long key tag xs) = omega (arith, length-append xs [])

usage_loop-first_usage :
    (its : List Item) (front rpt : List ℕ) (i fuel : ℕ) (f : Found)
    → rpt ≡ front ++ encode its
    → length front ≡ i
    → length rpt ≤ 2 ^ 30
    → All IsItem its
    → length its ≤ fuel
    → usage_loop fuel rpt (length rpt) i f ≡ done (first_usage its f)
unfolding usage_loop
usage_loop-first_usage [] front rpt i zero f e l s h m = ground (arith, e, length-append front [])
usage_loop-first_usage [] front rpt i (suc fuel) f e l s h m =
    ground (arith, e, length-append front [])
usage_loop-first_usage (it ∷ its) front rpt i zero f e l s h m = absurd (omega arith)
usage_loop-first_usage (it ∷ its) front rpt i (suc fuel) f e l s h m =
    let round : usage_round rpt (length rpt) i f ≡ done (i + item_length it, says it f) =
      rw e (usage_round-says it front (encode its) i f h.0 l (rw (sym e) s)) in
    let split : rpt ≡ (front ++ bytes_of it []) ++ encode its =
      e
      ∙ ap (λ l. front ++ l) (bytes_of-append it (encode its))
      ∙ sym (append_assoc front (bytes_of it []) (encode its)) in
    let len : length rpt ≡ length front + (length (bytes_of it []) + length (encode its)) =
      rw split (
        omega (
          arith,
          length-append (front ++ bytes_of it []) (encode its),
          length-append front (bytes_of it []),
        )) in
    let next =
      usage_loop-first_usage its (front ++ bytes_of it []) rpt (i + item_length it) fuel (says it f)
        split (omega (arith, length-append front (bytes_of it []), length-bytes_of it)) s h.1
        (omega arith) in
    ground (arith, round, len, length-bytes_of it, item_length-pos it, next)

length-encode : (its : List Item) → length its ≤ length (encode its)
length-encode [] = omega arith
length-encode (short key xs ∷ its) = omega (arith, length-encode its, length-append xs (encode its))
length-encode (long key tag xs ∷ its) =
    omega (arith, length-encode its, length-append xs (encode its))

-- On a report descriptor of at most 2^30 bytes that encodes well-formed items, `get_usage` returns,
-- reads nothing outside the descriptor, and stores what the items say up to the first one after
-- which a usage page and a usage are known; the result is 0 exactly when there is such an item.
pub get_usage-first_usage :
    (its : List Item)
    → All IsItem its
    → length (encode its) ≤ 2 ^ 30
    → get_usage (encode its) (length (encode its))
      ≡ done (first_usage its (record { usage_page = none; usage = none }))
unfolding get_usage
get_usage-first_usage its h s =
    usage_loop-first_usage its [] (encode its) 0 _ _ refl refl s h (length-encode its)
