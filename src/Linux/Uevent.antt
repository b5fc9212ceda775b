-- ===== src/Linux/Uevent.antt =====
pub mod Print
pub mod Tokens
pub mod Lines
-- The parser of a sysfs `uevent` file in hidapi/linux/hid.c: `parse_hid_vid_pid_from_uevent` and
-- `parse_uevent_info`, over the list of the bytes before the NUL. `strtok_r`, `strchr`, `strcmp` and
-- `sscanf` are the C library's, written out for the arguments that the code passes.
use usb_hid_tool.Prelude.{
  ℕ, zero, suc, ◌+◌, ◌-◌, ◌*◌, ◌%◌, ◌^◌, min, Bool, true, false, not, ◌&&◌, ◌||◌, List, [], ◌∷◌,
  Option, none, some, ltb, leb, ◌==◌, if◌then◌else◌, take, length,
}

abbrev pub Bytes : Type 0
Bytes = List ℕ

-- `strcmp(a, b) == 0`
unfoldable pub equal : Bytes → Bytes → Bool
equal [] [] = true
equal (c ∷ s) (d ∷ t) = if c == d then equal s t else false
equal s t = false

-- The text before and after the first `c`.
unfoldable pub cut : ℕ → Bytes → Option (Bytes × Bytes)
cut c [] = none
cut c (x ∷ xs) =
    if x == c
    then some ([], xs)
    else elim (cut c xs) [ none ↦ none | some (a, b) ↦ some (x ∷ a, b) ]

abbrev push : ℕ → List Bytes → List Bytes
push x [] = (x ∷ []) ∷ []
push x (l ∷ ls) = (x ∷ l) ∷ ls

-- The pieces between newlines, empty ones included.
unfoldable pub pieces : Bytes → List Bytes
pieces [] = [] ∷ []
pieces (x ∷ xs) = let rest = pieces xs in if x == b'\n' then [] ∷ rest else push x rest

abbrev pub drop_empty : List Bytes → List Bytes
drop_empty [] = []
drop_empty ([] ∷ ls) = drop_empty ls
drop_empty ((x ∷ l) ∷ ls) = (x ∷ l) ∷ drop_empty ls

-- The tokens of `strtok_r(tmp, "\n", &saveptr)`.
unfoldable pub lines : Bytes → List Bytes
lines s = drop_empty (pieces s)

unfoldable pub hex_digit : ℕ → Option ℕ
hex_digit c =
    if leb b'0' c && leb c b'9'
    then some (c - b'0')
    else if leb b'a' c && leb c b'f'
    then some (c - b'a' + 10)
    else if leb b'A' c && leb c b'F'
    then some (c - b'A' + 10)
    else none

-- The digits at the head of a text, read onto `acc`, and what follows them.
unfoldable pub hex_digits : ℕ → Bytes → ℕ × Bytes
unfolding hex_digit
hex_digits acc [] = (acc, [])
hex_digits acc (c ∷ cs) = elim (hex_digit c) [
  | none ↦ (acc, c ∷ cs)
  | some d ↦ hex_digits (acc * 16 + d) cs
]

-- At least one digit.
unfoldable pub hex_number : Bytes → Option (ℕ × Bytes)
hex_number [] = none
hex_number (c ∷ cs) = elim (hex_digit c) [ none ↦ none | some d ↦ some (hex_digits d cs) ]

-- A number with an optional prefix `0x`.
unfoldable pub prefixed : Bytes → Option (ℕ × Bytes)
prefixed (c ∷ d ∷ cs) =
    if c == b'0' && (d == b'x' || d == b'X') then hex_number cs else hex_number (c ∷ d ∷ cs)
prefixed cs = hex_number cs

abbrev is_space : ℕ → Bool
is_space c = c == b' ' || leb 9 c && leb c 13

unfoldable pub skip_space : Bytes → Bytes
skip_space [] = []
skip_space (c ∷ cs) = if is_space c then skip_space cs else c ∷ cs

-- `strtoul` stops at the largest `unsigned long`, and negates as that type does; `%x` and `%hx` keep
-- `w` bits of the result.
abbrev narrow : ℕ → Bool → Option (ℕ × Bytes) → Option (ℕ × Bytes)
narrow w minus none = none
narrow w minus (some (v, rest)) =
    let m = min v (2 ^ 64 - 1) in some ((if minus then (2 ^ 64 - m) % 2 ^ w else m % 2 ^ w), rest)

unfoldable pub signed : ℕ → Bytes → Option (ℕ × Bytes)
signed w [] = none
signed w (c ∷ cs) =
    if c == b'-'
    then narrow w true (prefixed cs)
    else if c == b'+'
    then narrow w false (prefixed cs)
    else narrow w false (prefixed (c ∷ cs))

unfoldable pub scan_hex : ℕ → Bytes → Option (ℕ × Bytes)
scan_hex w s = signed w (skip_space s)

-- `*bus_type`, `*vendor_id`, `*product_id`.
pub record Ids : Type 0 where
  pub bus_type : ℕ
  pub vendor_id : ℕ
  pub product_id : ℕ

abbrev colon : Bytes → Option Bytes
colon [] = none
colon (c ∷ cs) = if c == b':' then some cs else none

-- `sscanf(value, "%x:%hx:%hx", …)`: what is stored, and whether it returns 3. What was converted
-- before a mismatch is stored all the same.
unfoldable pub scan_product : Bytes → Ids → Ids × Bool
scan_product s ids = elim (scan_hex 16 s) [
  | none ↦ (ids, false)
  | some (v, _) ↦ (record ids { product_id = v }, true)
]

unfoldable pub scan_vendor : Bytes → Ids → Ids × Bool
scan_vendor s ids = elim (scan_hex 16 s) [
  | none ↦ (ids, false)
  | some (v, rest) ↦
      let ids' : Ids = record ids { vendor_id = v } in
      elim (colon rest) [ none ↦ (ids', false) | some s' ↦ scan_product s' ids' ]
]

unfoldable pub scan_ids : Bytes → Ids → Ids × Bool
scan_ids s ids = elim (scan_hex 32 s) [
  | none ↦ (ids, false)
  | some (v, rest) ↦
      let ids' : Ids = record ids { bus_type = v } in
      elim (colon rest) [ none ↦ (ids', false) | some s' ↦ scan_vendor s' ids' ]
]

abbrev pub hid_id : Bytes
hid_id = b'H' ∷ b'I' ∷ b'D' ∷ b'_' ∷ b'I' ∷ b'D' ∷ []

abbrev pub hid_name : Bytes
hid_name = b'H' ∷ b'I' ∷ b'D' ∷ b'_' ∷ b'N' ∷ b'A' ∷ b'M' ∷ b'E' ∷ []

abbrev pub hid_uniq : Bytes
hid_uniq = b'H' ∷ b'I' ∷ b'D' ∷ b'_' ∷ b'U' ∷ b'N' ∷ b'I' ∷ b'Q' ∷ []

-- The loop of `parse_hid_vid_pid_from_uevent`: it returns at the first whole `HID_ID`.
unfoldable pub ids_of_lines : List Bytes → Ids → Ids × Bool
ids_of_lines [] ids = (ids, false)
ids_of_lines (line ∷ ls) ids = elim (cut b'=' line) [
  | none ↦ ids_of_lines ls ids
  | some (key, value) ↦
      let (ids', whole) = (if equal key hid_id then scan_ids value ids else (ids, false)) in
      elim whole [ true ↦ (ids', true) | false ↦ ids_of_lines ls ids' ]
]

-- `tmp` holds the first 1023 bytes. The flag is the result; at `false` the error
-- "Couldn't find/parse HID_ID" is registered.
unfoldable pub parse_hid_vid_pid_from_uevent : Bytes → Ids → Ids × Bool
parse_hid_vid_pid_from_uevent uevent ids = ids_of_lines (lines (take 1023 uevent)) ids

-- The variables of `parse_uevent_info`. A string that is not found stays NULL.
pub record Info : Type 0 where
  pub ids : Ids
  pub found_id : Bool
  pub serial_number : Option Bytes
  pub product_name : Option Bytes

unfoldable pub info_of_pair : Bytes → Bytes → Info → Info
info_of_pair key value i =
    if equal key hid_id
    then (let (ids', whole) = scan_ids value i.ids in
        record i { ids = ids'; found_id = whole || i.found_id })
    else if equal key hid_name
    then record i { product_name = some value }
    else if equal key hid_uniq
    then record i { serial_number = some value }
    else i

unfoldable pub info_of_lines : List Bytes → Info → Info
info_of_lines [] i = i
info_of_lines (line ∷ ls) i =
    info_of_lines ls
      (elim (cut b'=' line) [ none ↦ i | some (key, value) ↦ info_of_pair key value i ])

abbrev is_found : Option Bytes → Bool
is_found none = false
is_found (some s) = true

-- `NULL` for a missing `uevent`. `found_name` and `found_serial` say that a string was stored.
unfoldable pub parse_uevent_info : Option Bytes → Ids → Info × Bool
parse_uevent_info uevent ids = elim uevent [
  | none ↦ (start, false)
  | some text ↦
      let i : Info = info_of_lines (lines (take 1023 text)) start in
      (i, i.found_id && is_found i.product_name && is_found i.serial_number)
]
  where
    start : Info
    start = record { ids = ids; found_id = false; serial_number = none; product_name = none }
