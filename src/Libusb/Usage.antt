-- ===== src/Libusb/Usage.antt =====
-- `get_bytes` and `get_usage` of hidapi/libusb/hid.c. `unsigned int` is 32 bits wide, `size_t` 64.
-- A usage that was not found is `none`: `*usage` is then as the caller left it.
pub mod Encoding
pub mod Items
use usb_hid_tool.Prelude.{
  ℕ, zero, suc, ◌+◌, ◌*◌, ◌%◌, ◌^◌, Bool, true, false, ◌&&◌, ◌||◌, List, [], ◌∷◌, Option, none,
  some, ltb, leb, ◌==◌, if◌then◌else◌, bit_and,
}
use usb_hid_tool.Run.{Run, done, spent, ◌>>=◌, read}

unfoldable pub get_bytes : List ℕ → ℕ → ℕ → ℕ → Run ℕ
get_bytes rpt len num_bytes cur =
    if leb len ((cur + num_bytes) % 2 ^ 64)
    then done 0
    else if num_bytes == 0
    then done 0
    else if num_bytes == 1
    then read rpt (cur + 1)
    else if num_bytes == 2
    then (do b ← read rpt (cur + 2); a ← read rpt (cur + 1); done (b * 256 + a))
    else if num_bytes == 4
    then (do
      d ← read rpt (cur + 4)
      c ← read rpt (cur + 3)
      b ← read rpt (cur + 2)
      a ← read rpt (cur + 1)
      done ((d * 0x01000000 + c * 0x00010000 + b * 0x00000100 + a * 0x00000001) % 2 ^ 32))
    else done 0

-- `usage_page` and `usage`, with their flags.
pub record Found : Type 0 where
  pub usage_page : Option ℕ
  pub usage : Option ℕ

-- `unsigned short`
abbrev pub u16 : ℕ → ℕ
u16 n = n % 2 ^ 16

abbrev pub is_complete : Found → Bool
is_complete f = elim f.usage_page [
  | none ↦ false
  | some _ ↦ elim f.usage [ none ↦ false | some _ ↦ true ]
]

-- `data_len` and `key_size`
unfoldable pub item_size : List ℕ → ℕ → ℕ → ℕ → Run (ℕ × ℕ)
item_size rpt size i key =
    if bit_and key 0xf0 == 0xf0
    then (if ltb ((i + 1) % 2 ^ 32) size
        then (do len ← read rpt ((i + 1) % 2 ^ 32); done (len, 3))
        else done (0, 3))
    else if bit_and key 0x3 == 3
    then done (4, 1)
    else done (bit_and key 0x3, 1)

-- What an item with command `cmd` stores.
unfoldable pub store_item : List ℕ → ℕ → ℕ → ℕ → ℕ → Found → Run Found
store_item rpt size i cmd data_len f =
    if cmd == 0x4
    then (do page ← get_bytes rpt size data_len i; done (record f { usage_page = some (u16 page) }))
    else if cmd == 0x8
    then (if data_len == 4
        then (do
          page ← get_bytes rpt size 2 (i + 2)
          usage ← get_bytes rpt size 2 i
          done (record { usage_page = some (u16 page); usage = some (u16 usage) }))
        else (do
          usage ← get_bytes rpt size data_len i
          done (record f { usage = some (u16 usage) })))
    else done f

-- One round: where the loop goes on, and what is found so far.
unfoldable pub usage_round : List ℕ → ℕ → ℕ → Found → Run (ℕ × Found)
usage_round rpt size i f = do
  key ← read rpt i
  (data_len, key_size) ← item_size rpt size i key
  f' ← store_item rpt size i (bit_and key 0xfc) data_len f
  done ((i + data_len + key_size) % 2 ^ 32, f')

-- `true` is the result 0, `false` is -1.
unfoldable pub usage_loop : ℕ → List ℕ → ℕ → ℕ → Found → Run (Bool × Found)
usage_loop zero rpt size i f = if ltb i size then spent else done (false, f)
usage_loop (suc fuel) rpt size i f =
    if ltb i size
    then (do
      (i', f') ← usage_round rpt size i f
      if is_complete f' then done (true, f') else usage_loop fuel rpt size i' f')
    else done (false, f)

-- Each round goes forward, so that the size is enough fuel.
unfoldable pub get_usage : List ℕ → ℕ → Run (Bool × Found)
get_usage rpt size = usage_loop size rpt size 0 (record { usage_page = none; usage = none })
