-- ===== src/Linux/Uevent/Tokens.antt =====
-- The lines of a uevent file, and what each does to the values that are parsed.
use usb_hid_tool.Prelude.{
  ℕ, ◌≡◌, ◌≢◌, refl, ap, ◌∙◌, Bool, true, ◌||◌, List, [], ◌∷◌, ◌++◌, map, some, arith, ◌↔◌,
}
use usb_hid_tool.Run.{All, All-append}
use usb_hid_tool.Linux.Uevent.{
  Bytes, equal, cut, pieces, drop_empty, lines, Ids, scan_ids, hid_id, hid_name, hid_uniq,
  ids_of_lines, Info, info_of_pair, info_of_lines,
}
use usb_hid_tool.Linux.Uevent.Print.{
  IsDigit, hex_char, hex_char-ne, Printed, IsPrinted, print, print_ids,
}

-- One line, `key=val`.
pub record Pair : Type 0 where
  pub key : Bytes
  pub val : Bytes

abbrev pub line : Pair → Bytes
line p = p.key ++ (b'=' ∷ p.val)

-- The file: each line with its newline.
abbrev pub file : List Pair → Bytes
file [] = []
file (p ∷ ps) = line p ++ (b'\n' ∷ file ps)

abbrev pub Without : ℕ → Bytes → Type 0
Without c = All (λ x. x ≢ c)

pub record IsPair (p : Pair) : Type 0 where
  pub key_line : Without b'\n' p.key
  pub val_line : Without b'\n' p.val
  pub key_end : Without b'=' p.key

-- A line that neither parser looks at.
pub record IsOther (p : Pair) : Type 0 where
  pub not_id : p.key ≢ hid_id
  pub not_name : p.key ≢ hid_name
  pub not_uniq : p.key ≢ hid_uniq

equal_iff : (s t : Bytes) → (equal s t ≡ true) ↔ (s ≡ t)
unfolding equal
equal_iff [] [] = ground arith
equal_iff [] (d ∷ t) = ground arith
equal_iff (c ∷ s) [] = ground arith
equal_iff (c ∷ s) (d ∷ t) = ground (arith, equal_iff s t)

cut-line : (c : ℕ) (key val : Bytes) → Without c key → cut c (key ++ (c ∷ val)) ≡ some (key, val)
unfolding cut
cut-line c [] val a = ground arith
cut-line c (x ∷ key) val a = ground (arith, cut-line c key val a.1)

pieces-append : (l rest : Bytes) → Without b'\n' l → pieces (l ++ (b'\n' ∷ rest)) ≡ l ∷ pieces rest
unfolding pieces
pieces-append [] rest a = refl
pieces-append (x ∷ l) rest a = ground (arith, pieces-append l rest a.1)

drop_empty-line :
    (key val : Bytes) (ls : List Bytes)
    → drop_empty ((key ++ (b'=' ∷ val)) ∷ ls) ≡ (key ++ (b'=' ∷ val)) ∷ drop_empty ls
drop_empty-line [] val ls = refl
drop_empty-line (x ∷ key) val ls = refl

line-Without : (p : Pair) → IsPair p → Without b'\n' (line p)
line-Without p h =
    All-append (λ x. x ≢ b'\n') p.key (b'=' ∷ p.val) h.key_line (omega arith, h.val_line)

pub lines-file : (ps : List Pair) → All IsPair ps → lines (file ps) ≡ map line ps
unfolding lines
lines-file [] a = unfold pieces in refl
lines-file (p ∷ ps) a =
    ap drop_empty (pieces-append (line p) (file ps) (line-Without p a.0))
    ∙ drop_empty-line p.key p.val (pieces (file ps))
    ∙ ap (◌∷◌ (line p)) (lines-file ps a.1)

pub others-ids :
    (ps : List Pair) (ls : List Bytes) (ids : Ids)
    → All IsPair ps
    → All IsOther ps
    → ids_of_lines (map line ps ++ ls) ids ≡ ids_of_lines ls ids
unfolding ids_of_lines
others-ids [] ls ids a o = refl
others-ids (p ∷ ps) ls ids a o = ground (
  arith,
  cut-line b'=' p.key p.val a.0.key_end,
  equal_iff p.key hid_id,
  o.0.not_id,
  others-ids ps ls ids a.1 o.1,
)

info_of_pair-other : (p : Pair) (i : Info) → IsOther p → info_of_pair p.key p.val i ≡ i
unfolding info_of_pair
info_of_pair-other p i o = ground (
  arith,
  o.not_id,
  o.not_name,
  o.not_uniq,
  equal_iff p.key hid_id,
  equal_iff p.key hid_name,
  equal_iff p.key hid_uniq,
)

pub others-info :
    (ps : List Pair) (ls : List Bytes) (i : Info)
    → All IsPair ps
    → All IsOther ps
    → info_of_lines (map line ps ++ ls) i ≡ info_of_lines ls i
unfolding info_of_lines
others-info [] ls i a o = refl
others-info (p ∷ ps) ls i a o = ground (
  arith,
  cut-line b'=' p.key p.val a.0.key_end,
  info_of_pair-other p i o.0,
  others-info ps ls i a.1 o.1,
)

print-Without : (ds : List ℕ) → All IsDigit ds → Without b'\n' (map hex_char ds)
print-Without [] h = tt
print-Without (d ∷ ds) h = (omega (arith, hex_char-ne d h.0), print-Without ds h.1)

Printed-Without : (n : Printed) → IsPrinted n → Without b'\n' (print n)
Printed-Without n h = print-Without (n.lead ∷ n.tail) h.digits

pub print_ids-Without :
    (a b c : Printed) → IsPrinted a → IsPrinted b → IsPrinted c → Without b'\n' (print_ids a b c)
print_ids-Without a b c ha hb hc =
    join (print a) (print b ++ (b':' ∷ print c)) (Printed-Without a ha)
      (join (print b) (print c) (Printed-Without b hb) (Printed-Without c hc))
  where
    join : (xs ys : Bytes) → Without b'\n' xs → Without b'\n' ys → Without b'\n' (xs ++ (b':' ∷ ys))
    join xs ys hx hy = All-append (λ x. x ≢ b'\n') xs (b':' ∷ ys) hx (omega arith, hy)

pub ids_of_lines-id :
    (val : Bytes) (ls : List Bytes) (ids ids' : Ids)
    → scan_ids val ids ≡ (ids', true)
    → ids_of_lines (line (record { key = hid_id; val = val }) ∷ ls) ids ≡ (ids', true)
unfolding ids_of_lines cut equal
ids_of_lines-id val ls ids ids' e = ground (arith, e)

pub info_of_lines-id :
    (val : Bytes) (ls : List Bytes) (i : Info) (ids' : Ids)
    → scan_ids val i.ids ≡ (ids', true)
    → info_of_lines (line (record { key = hid_id; val = val }) ∷ ls) i
      ≡ info_of_lines ls (record i { ids = ids'; found_id = true })
unfolding info_of_lines cut equal info_of_pair
info_of_lines-id val ls i ids' e =
    ap (λ (r : Ids × Bool). info_of_lines ls (record i { ids = r.0; found_id = r.1 || i.found_id }))
      e

pub info_of_lines-name :
    (name : Bytes) (ls : List Bytes) (i : Info)
    → info_of_lines (line (record { key = hid_name; val = name }) ∷ ls) i
      ≡ info_of_lines ls (record i { product_name = some name })
unfolding info_of_lines cut equal info_of_pair
info_of_lines-name name ls i = refl

pub info_of_lines-uniq :
    (serial : Bytes) (ls : List Bytes) (i : Info)
    → info_of_lines (line (record { key = hid_uniq; val = serial }) ∷ ls) i
      ≡ info_of_lines ls (record i { serial_number = some serial })
unfolding info_of_lines cut equal info_of_pair
info_of_lines-uniq serial ls i = refl
