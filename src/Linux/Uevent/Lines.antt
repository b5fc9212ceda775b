-- ===== src/Linux/Uevent/Lines.antt =====
-- A whole `uevent` file of `KEY=value` lines, as both parsers read it.
use usb_hid_tool.Prelude.{
  ◌%◌, ◌^◌, ◌≤◌, ◌≡◌, refl, sym, ap, ◌∙◌, true, List, [], ◌∷◌, ◌++◌, map, some, take, take_all,
  length, arith,
}
use mathlib.Core.List.{map-append, append-nil}
use usb_hid_tool.Run.{All, All-append}
use usb_hid_tool.Linux.Uevent.{
  Bytes, lines, Ids, scan_ids, hid_id, hid_name, hid_uniq, parse_hid_vid_pid_from_uevent, Info,
  info_of_lines, parse_uevent_info,
}
use usb_hid_tool.Linux.Uevent.Print.{Printed, IsPrinted, print_ids, number, scan_ids-print}
use usb_hid_tool.Linux.Uevent.Tokens.{
  Pair, line, file, Without, IsPair, IsOther, lines-file, others-ids, others-info,
  print_ids-Without, ids_of_lines-id, info_of_lines-id, info_of_lines-name, info_of_lines-uniq,
}

-- The lines of a file: the three that are read, in this order, with any others before, between and
-- behind them.
pub record Uevent : Type 0 where
  pub before : List Pair
  pub bus : Printed
  pub vendor : Printed
  pub product : Printed
  pub behind_id : List Pair
  pub name : Bytes
  pub behind_name : List Pair
  pub serial : Bytes
  pub after : List Pair

abbrev id_line : Uevent → Pair
id_line u = record { key = hid_id; val = print_ids u.bus u.vendor u.product }

abbrev name_pair : Uevent → Pair
name_pair u = record { key = hid_name; val = u.name }

abbrev serial_pair : Uevent → Pair
serial_pair u = record { key = hid_uniq; val = u.serial }

abbrev serial_lines : Uevent → List Pair
serial_lines u = serial_pair u ∷ u.after

abbrev name_lines : Uevent → List Pair
name_lines u = name_pair u ∷ (u.behind_name ++ serial_lines u)

abbrev read_lines : Uevent → List Pair
read_lines u = id_line u ∷ (u.behind_id ++ name_lines u)

abbrev pub text : Uevent → Bytes
text u = file (u.before ++ read_lines u)

-- Names hold no newline, printed numbers fit 64 bits, the other lines have other keys, and the text
-- is at most 1023 bytes long.
pub record IsUevent (u : Uevent) : Type 0 where
  pub before_pairs : All IsPair u.before
  pub before_others : All IsOther u.before
  pub bus_printed : IsPrinted u.bus
  pub vendor_printed : IsPrinted u.vendor
  pub product_printed : IsPrinted u.product
  pub behind_id_pairs : All IsPair u.behind_id
  pub behind_id_others : All IsOther u.behind_id
  pub name_line : Without b'\n' u.name
  pub behind_name_pairs : All IsPair u.behind_name
  pub behind_name_others : All IsOther u.behind_name
  pub serial_line : Without b'\n' u.serial
  pub after_pairs : All IsPair u.after
  pub after_others : All IsOther u.after
  pub short : length (text u) ≤ 1023

abbrev pub ids_of : Uevent → Ids
ids_of u = record {
  bus_type = number u.bus % 2 ^ 32;
  vendor_id = number u.vendor % 2 ^ 16;
  product_id = number u.product % 2 ^ 16;
}

abbrev pub info_of : Uevent → Info
info_of u = record {
  ids = ids_of u;
  found_id = true;
  serial_number = some u.serial;
  product_name = some u.name;
}

module _ (u : Uevent) (h : IsUevent u) where
  abbrev key_pair :
      (key val : Bytes)
      → Without b'\n' key
      → Without b'=' key
      → Without b'\n' val
      → IsPair (record { key = key; val = val })
  key_pair key val n e v = record { key_line = n; val_line = v; key_end = e }

  serial_lines-IsPair : All IsPair (serial_lines u)
  serial_lines-IsPair =
      (key_pair hid_uniq u.serial (omega arith) (omega arith) h.serial_line, h.after_pairs)

  name_lines-IsPair : All IsPair (name_lines u)
  name_lines-IsPair = (
    key_pair hid_name u.name (omega arith) (omega arith) h.name_line,
    All-append IsPair u.behind_name (serial_lines u) h.behind_name_pairs serial_lines-IsPair,
  )

  read_lines-IsPair : All IsPair (read_lines u)
  read_lines-IsPair = (
    key_pair hid_id (print_ids u.bus u.vendor u.product) (omega arith) (omega arith) (
        print_ids-Without u.bus u.vendor u.product h.bus_printed h.vendor_printed
          h.product_printed),
    All-append IsPair u.behind_id (name_lines u) h.behind_id_pairs name_lines-IsPair,
  )

  lines-text : lines (take 1023 (text u)) ≡ map line u.before ++ map line (read_lines u)
  lines-text =
      ap lines (take_all 1023 (text u) h.short)
      ∙ lines-file (u.before ++ read_lines u)
          (All-append IsPair u.before (read_lines u) h.before_pairs read_lines-IsPair)
      ∙ map-append line u.before (read_lines u)

  ids_read : (ids : Ids) → scan_ids (print_ids u.bus u.vendor u.product) ids ≡ (ids_of u, true)
  ids_read ids =
      scan_ids-print u.bus u.vendor u.product ids h.bus_printed h.vendor_printed h.product_printed

  -- On a well-formed uevent file (`IsUevent`) the search for a device finds the identifiers that the
  -- file holds.
  pub parse_hid_vid_pid_from_uevent-text :
      (ids : Ids) → parse_hid_vid_pid_from_uevent (text u) ids ≡ (ids_of u, true)
  unfolding parse_hid_vid_pid_from_uevent
  parse_hid_vid_pid_from_uevent-text ids = rw lines-text (
      others-ids u.before (map line (read_lines u)) ids h.before_pairs h.before_others
      ∙ ids_of_lines-id (print_ids u.bus u.vendor u.product) _ ids (ids_of u) (ids_read ids))

  -- The lines from the serial number on, and those from the name on.
  info_of_lines-serial :
      (i : Info)
      → info_of_lines (map line (serial_lines u)) i ≡ record i { serial_number = some u.serial }
  info_of_lines-serial i =
      info_of_lines-uniq u.serial (map line u.after) i
      ∙ ap (λ ls. info_of_lines ls (record i { serial_number = some u.serial }))
          (sym (append-nil (map line u.after)))
      ∙ others-info u.after [] (record i { serial_number = some u.serial }) h.after_pairs
          h.after_others
      ∙ unfold info_of_lines in refl

  info_of_lines-name_lines :
      (i : Info)
      → info_of_lines (map line (name_lines u)) i
        ≡ record i { product_name = some u.name; serial_number = some u.serial }
  info_of_lines-name_lines i =
      info_of_lines-name u.name (map line (u.behind_name ++ serial_lines u)) i
      ∙ ap (λ ls. info_of_lines ls (record i { product_name = some u.name }))
          (map-append line u.behind_name (serial_lines u))
      ∙ others-info u.behind_name (map line (serial_lines u))
          (record i { product_name = some u.name }) h.behind_name_pairs h.behind_name_others
      ∙ info_of_lines-serial (record i { product_name = some u.name })

  info_of_lines-text :
      (i : Info) → info_of_lines (map line u.before ++ map line (read_lines u)) i ≡ info_of u
  info_of_lines-text i =
      let found : Info = record i { ids = ids_of u; found_id = true } in
      others-info u.before (map line (read_lines u)) i h.before_pairs h.before_others
      ∙ info_of_lines-id (print_ids u.bus u.vendor u.product) _ i (ids_of u) (ids_read i.ids)
      ∙ ap (λ ls. info_of_lines ls found) (map-append line u.behind_id (name_lines u))
      ∙ others-info u.behind_id (map line (name_lines u)) found h.behind_id_pairs h.behind_id_others
      ∙ info_of_lines-name_lines found

  -- On a well-formed uevent file (`IsUevent`: at most 1023 bytes, the three lines in this order, with
  -- lines of other keys before, between and behind them) the identifiers, the name and the serial
  -- number are those that the file holds.
  pub parse_uevent_info-text :
      (ids : Ids) → parse_uevent_info (some (text u)) ids ≡ (info_of u, true)
  unfolding parse_uevent_info
  parse_uevent_info-text ids = rw lines-text (rw info_of_lines-text)
