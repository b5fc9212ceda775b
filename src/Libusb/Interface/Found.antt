-- ===== src/Libusb/Interface/Found.antt =====
-- Which size the search finds: that of the first report entry of the first HID descriptor.
use usb_hid_tool.Prelude.{
  ℕ, zero, suc, ◌+◌, ◌*◌, ◌≤◌, ◌<◌, ◌≡◌, ◌≢◌, refl, List, [], ◌∷◌, ◌++◌, some, length, drop,
  length-append, arith,
}
use usb_hid_tool.Run.{done, read_at, append_assoc, All}
use usb_hid_tool.Libusb.Interface.{
  Bytes, InterfaceDescriptor, find_report, hid_size, size_round, size_loop,
  get_report_descriptor_size_from_interface_descriptors, dt_hid, dt_report,
}

-- A descriptor that is not a HID descriptor: its type and the bytes behind the type.
pub record Other : Type 0 where
  pub type : ℕ
  pub body : Bytes

abbrev other_bytes : List Other → Bytes → Bytes
other_bytes [] rest = rest
other_bytes (d ∷ ds) rest = suc (suc (length d.body)) ∷ d.type ∷ d.body ++ other_bytes ds rest

abbrev pub IsOther : Other → Type 0
IsOther d = d.type ≢ dt_hid

-- An entry of a HID descriptor: the type of a class descriptor and the bytes of its size.
pub record Entry : Type 0 where
  pub type : ℕ
  pub low : ℕ
  pub high : ℕ

abbrev entry_bytes : List Entry → Bytes → Bytes
entry_bytes [] rest = rest
entry_bytes (e ∷ es) rest = e.type ∷ e.low ∷ e.high ∷ entry_bytes es rest

abbrev IsOtherEntry : Entry → Type 0
IsOtherEntry e = e.type ≢ dt_report

-- A HID descriptor with an entry for a report descriptor: `n` is bLength, `a`, `b`, `c` are the
-- version and the country.
abbrev hid_bytes : (n a b c : ℕ) → List Entry → Entry → List Entry → Bytes → Bytes
hid_bytes n a b c before e after rest =
    n
    ∷ dt_hid
    ∷ a
    ∷ b
    ∷ c
    ∷ (length before + suc (length after))
    ∷ entry_bytes before (entry_bytes (e ∷ []) (entry_bytes after rest))

drop_body : (xs ys : Bytes) → drop (length xs) (xs ++ ys) ≡ ys
drop_body [] ys = refl
drop_body (x ∷ xs) ys = drop_body xs ys

find_report-found :
    (before : List Entry) (e : Entry) (front rest : Bytes) (i left : ℕ)
    → All IsOtherEntry before
    → e.type ≡ dt_report
    → length front ≡ 6 + 3 * i
    → length before < left
    → find_report (front ++ entry_bytes before (entry_bytes (e ∷ []) rest)) i left
      ≡ done (some (e.high * 256 + e.low))
unfolding find_report
find_report-found before e front rest i zero a t l h = absurd (omega arith)
find_report-found [] e front rest i (suc left) a t l h =
    let tail : Bytes = e.type ∷ e.low ∷ e.high ∷ rest in
    ground (
      arith,
      t,
      read_at front tail 0 (6 + 3 * i),
      read_at front tail 1 (6 + 3 * i + 1),
      read_at front tail 2 (6 + 3 * i + 2),
    )
find_report-found (b ∷ before) e front rest i (suc left) a t l h =
    let rest' : Bytes = entry_bytes before (entry_bytes (e ∷ []) rest) in
    let head : Bytes = b.type ∷ b.low ∷ b.high ∷ [] in
    let ih : find_report ((front ++ head) ++ rest') (suc i) left
        ≡ done (some (e.high * 256 + e.low)) =
      find_report-found before e (front ++ head) rest (suc i) left a.1 t
        (omega (arith, length-append front head)) (omega arith) in
    let assoc : (front ++ head) ++ rest' ≡ front ++ (head ++ rest') =
      append_assoc front head rest' in
    ground (arith, a.0, assoc, ih, read_at front (head ++ rest') 0 (6 + 3 * i))

length-entry_bytes :
    (es : List Entry) (rest : Bytes) → length (entry_bytes es rest) ≡ 3 * length es + length rest
length-entry_bytes [] rest = omega arith
length-entry_bytes (e ∷ es) rest = omega (arith, length-entry_bytes es rest)

hid_size-found :
    (before after : List Entry) (e : Entry) (n a b c : ℕ) (rest : Bytes)
    → All IsOtherEntry before
    → e.type ≡ dt_report
    → hid_size (hid_bytes n a b c before e after rest) ≡ done (e.high * 256 + e.low)
unfolding hid_size
hid_size-found before after e n a b c rest h t =
    let front : Bytes = n ∷ dt_hid ∷ a ∷ b ∷ c ∷ (length before + suc (length after)) ∷ [] in
    let more : Bytes = entry_bytes after rest in
    let found =
      find_report-found before e front more 0 (length before + suc (length after)) h t refl
        (omega arith) in
    ground (
      arith,
      found,
      length-entry_bytes before (entry_bytes (e ∷ []) more),
      length-entry_bytes after rest,
    )

size_loop-found :
    (others : List Other) (before after : List Entry) (e : Entry) (n a b c : ℕ) (rest : Bytes)
    (fuel : ℕ)
    → All IsOther others
    → All IsOtherEntry before
    → e.type ≡ dt_report
    → length others < fuel
    → size_loop fuel (other_bytes others (hid_bytes n a b c before e after rest))
      ≡ done (e.high * 256 + e.low)
unfolding size_loop size_round
size_loop-found others before after e n a b c rest zero o h t f = absurd (omega arith)
size_loop-found [] before after e n a b c rest (suc fuel) o h t f =
    ground (arith, hid_size-found before after e n a b c rest h t)
size_loop-found (d ∷ others) before after e n a b c rest (suc fuel) o h t f =
    let rest' : Bytes = other_bytes others (hid_bytes n a b c before e after rest) in
    ground (
      arith,
      o.0,
      drop_body d.body rest',
      size_loop-found others before after e n a b c rest fuel o.1 h t (omega arith),
    )

length-other_bytes :
    (ds : List Other) (rest : Bytes) → length ds + length rest ≤ length (other_bytes ds rest)
length-other_bytes [] rest = omega arith
length-other_bytes (d ∷ ds) rest =
    omega (arith, length-other_bytes ds rest, length-append d.body (other_bytes ds rest))

-- After descriptors of other types, each as long as its first byte says, the first HID descriptor is
-- used: the size is the little-endian one of its first entry for a report descriptor, whatever
-- entries of other types stand before it and whatever bytes follow.
get_report_descriptor_size-found :
    (d : InterfaceDescriptor) (others : List Other) (before after : List Entry) (e : Entry)
    (n a b c : ℕ) (rest : Bytes)
    → All IsOther others
    → All IsOtherEntry before
    → e.type ≡ dt_report
    → d.extra ≡ other_bytes others (hid_bytes n a b c before e after rest)
    → get_report_descriptor_size_from_interface_descriptors d ≡ done (e.high * 256 + e.low)
unfolding get_report_descriptor_size_from_interface_descriptors
get_report_descriptor_size-found d others before after e n a b c rest o h t x = rw x (
    size_loop-found others before after e n a b c rest _ o h t
      (omega (arith, length-other_bytes others (hid_bytes n a b c before e after rest))))
