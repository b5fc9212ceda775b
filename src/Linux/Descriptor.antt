-- ===== src/Linux/Descriptor.antt =====
pub mod Progress
pub mod Usage
-- The report descriptor parser of hidapi/linux/hid.c: `get_hid_item_size`, `get_hid_report_bytes`,
-- `hid_iterate_over_collection` and `get_next_hid_usage`.
-- A descriptor is the list of its bytes; `unsigned int` and `__u32` are 32 bits wide, `size_t` 64.
use usb_hid_tool.Prelude.{
  ℕ, zero, suc, ◌+◌, ◌*◌, ◌%◌, ◌^◌, Bool, true, false, not, ◌&&◌, ◌||◌, List, bit_and, ltb, leb,
  ◌==◌, if◌then◌else◌,
}
use usb_hid_tool.Prelude.Int.{ℤ, pos, negsuc}
use usb_hid_tool.Run.{Run, done, spent, ◌>>=◌, read}

-- `unsigned int` addition.
abbrev pub add_u32 : ℕ → ℕ → ℕ
add_u32 a b = (a + b) % 2 ^ 32

-- `size_t` addition.
abbrev add_size : ℕ → ℕ → ℕ
add_size a b = (a + b) % 2 ^ 64

-- What `get_hid_item_size` returns and stores through its pointers.
pub record ItemSize : Type 0 where
  pub ok : Bool
  pub data_len : ℕ
  pub key_size : ℕ

abbrev item : Bool → ℕ → ℕ → ItemSize
item ok data_len key_size = record { ok = ok; data_len = data_len; key_size = key_size }

-- The switch on the size code.
unfoldable pub short_item_size : ℕ → ItemSize
short_item_size code =
    if code == 0 || code == 1 || code == 2
    then item true code 1
    else if code == 3
    then item true 4 1
    else item false 0 0

-- A long item whose length byte is missing goes on to the switch, which overwrites the zeros.
unfoldable pub get_hid_item_size : List ℕ → ℕ → ℕ → Run ItemSize
unfolding short_item_size
get_hid_item_size rpt size p = do
  key ← read rpt p
  if bit_and key 0xf0 == 0xf0 && ltb (add_u32 p 1) size
      then (do len ← read rpt (add_u32 p 1); done (item true len 3))
      else done (short_item_size (bit_and key 0x3))

unfoldable pub get_hid_report_bytes : List ℕ → ℕ → ℕ → ℕ → Run ℕ
get_hid_report_bytes rpt len num_bytes cur =
    if leb len (add_size cur num_bytes)
    then done 0
    else if num_bytes == 0
    then done 0
    else if num_bytes == 1
    then read rpt (cur + 1)
    else if num_bytes == 2
    then (do b ← read rpt (cur + 2); a ← read rpt (cur + 1); done (b * 256 + a))
    else if num_bytes == 4
    then (do
      d ← read rpt (cur + 4)
      c ← read rpt (cur + 3)
      b ← read rpt (cur + 2)
      a ← read rpt (cur + 1)
      done ((d * 0x01000000 + c * 0x00010000 + b * 0x00000100 + a) % 2 ^ 32))
    else done 0

-- `collection_level` after an item.
unfoldable pub level_after : ℕ → ℕ → ℤ
level_after cmd level =
    if cmd == 0xa0 then pos (suc level) else if cmd == 0xc0 then decrement level else pos level
  where
    decrement : ℕ → ℤ
    decrement zero = negsuc 0
    decrement (suc n) = pos n

-- What `hid_iterate_over_collection` returns, with `*pos` and the last item size.
pub record Iterated : Type 0 where
  pub found : Bool
  pub at : ℕ
  pub last : ItemSize

abbrev iterated : Bool → ℕ → ItemSize → Iterated
iterated found at last = record { found = found; at = at; last = last }

-- One round of the loop: the function returns, or goes on at a position and a level.
pub data Round : Type 0 where
  leave : Iterated → Round
  again : ℕ → ℕ → ItemSize → Round

unfoldable pub iterate_item : ℕ → ItemSize → ℤ → Round
iterate_item p it (negsuc n) = leave (iterated false p it)
iterate_item p it (pos zero) = leave (iterated true p it)
iterate_item p it (pos (suc l)) = again (add_u32 p (it.data_len + it.key_size)) (suc l) it

unfoldable pub iterate_step : List ℕ → ℕ → ℕ → ℕ → Run Round
iterate_step rpt size p level = do
  key ← read rpt p
  it ← get_hid_item_size rpt size p
  if not it.ok
      then done (leave (iterated false p it))
      else done (iterate_item p it (level_after (bit_and key 0xfc) level))

-- The loop, on fuel; `level` is not negative where the loop goes on.
unfoldable pub iterate_loop : ℕ → List ℕ → ℕ → ℕ → ℕ → ItemSize → Run Iterated
iterate_loop zero rpt size p level last = spent
iterate_loop (suc fuel) rpt size p level last =
    if not (ltb p size) then done (iterated false p last) else (do
      round ← iterate_step rpt size p level
      elim round [ leave r ↦ done r | again p' l it ↦ iterate_loop fuel rpt size p' l it ])

unfoldable pub hid_iterate_over_collection : ℕ → List ℕ → ℕ → ℕ → ItemSize → Run Iterated
hid_iterate_over_collection fuel rpt size p last = iterate_loop fuel rpt size p 0 last

-- `struct hid_usage_iterator`, and the variables `usage_found` and `*usage`.
pub record Scan : Type 0 where
  pub at : ℕ
  pub usage_page_found : Bool
  pub usage_page : ℕ
  pub usage_found : Bool
  pub usage : ℕ

-- 0, 1 and -1.
pub data Verdict : Type 0 where
  pair finished malformed : Verdict

-- The loop of `get_next_hid_usage`: one item.
pub data Next : Type 0 where
  stop : Verdict → Scan → Next
  go : Scan → Next

abbrev pub set_page : Scan → ℕ → Scan
set_page s v = record s { usage_page = v % 2 ^ 16; usage_page_found = true }

abbrev pub set_usage : Scan → ℕ → Scan
set_usage s v = record s { usage = v % 2 ^ 16; usage_found = true }

abbrev pub skip : Scan → ItemSize → Next
skip s it = go (record s { at = add_u32 s.at (it.data_len + it.key_size) })

unfoldable pub after_collection : Scan → Iterated → Next
after_collection s r =
    if not r.found
    then stop malformed (record s { at = r.at })
    else if s.usage_found && s.usage_page_found
    then stop pair (record s { at = r.at })
    else skip (record s { at = r.at }) r.last

-- `case 0xa0`. A pair is reported at the end of its collection, with `pos` at that end.
unfoldable pub collection_item : ℕ → List ℕ → ℕ → Scan → ItemSize → Run Next
collection_item fuel rpt size s it = do
  r ← hid_iterate_over_collection fuel rpt size s.at it
  done (after_collection s r)

-- The switch on `key_cmd`, and the move past the item.
unfoldable pub usage_item : ℕ → List ℕ → ℕ → Scan → ℕ → ItemSize → Run Next
usage_item fuel rpt size s cmd it =
    if cmd == 0x4
    then (do v ← get_hid_report_bytes rpt size it.data_len s.at; done (skip (set_page s v) it))
    else if cmd == 0x8
    then (if it.data_len == 4
        then (do
          v ← get_hid_report_bytes rpt size 2 (add_u32 s.at 2)
          u ← get_hid_report_bytes rpt size 2 s.at
          done (skip (set_usage (set_page s v) u) it))
        else (do
          u ← get_hid_report_bytes rpt size it.data_len s.at
          done (skip (set_usage s u) it)))
    else if cmd == 0xa0
    then collection_item fuel rpt size s it
    else done (skip s it)

unfoldable pub usage_step : ℕ → List ℕ → ℕ → Scan → Run Next
usage_step fuel rpt size s = do
  key ← read rpt s.at
  it ← get_hid_item_size rpt size s.at
  if not it.ok then done (stop malformed s) else usage_item fuel rpt size s (bit_and key 0xfc) it

unfoldable pub usage_loop : ℕ → List ℕ → ℕ → Bool → Scan → Run (Verdict × Scan)
usage_loop zero rpt size initial s = spent
usage_loop (suc fuel) rpt size initial s =
    if not (ltb s.at size)
    then (if initial && s.usage_found && s.usage_page_found
        then done (pair, s)
        else done (finished, s))
    else (do
      next ← usage_step (suc fuel) rpt size s
      elim next [ stop v s' ↦ done (v, s') | go s' ↦ usage_loop fuel rpt size initial s' ])

unfoldable pub get_next_hid_usage : ℕ → List ℕ → ℕ → Scan → Run (Verdict × Scan)
get_next_hid_usage fuel rpt size s =
    usage_loop fuel rpt size (s.at == 0) (record s { usage_found = false })
