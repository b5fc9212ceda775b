-- ===== src/Libusb/Interface/Size.antt =====
-- The report descriptor size of an interface: what its search reads, when it ends, what it finds.
use usb_hid_tool.Prelude.{
  ℕ, zero, suc, ◌+◌, ◌*◌, ◌≤◌, ◌<◌, ◌≡◌, false, [], ◌∷◌, Option, none, some, ltb, ◌==◌, length,
  drop, length-drop, arith, Bool-cases, inl, inr,
}
use usb_hid_tool.Run.{read, Returns, Returns-bind, Returns-read, All}
use usb_hid_tool.Libusb.Interface.{
  Bytes, InterfaceDescriptor, find_report, hid_size, Round, result, next, size_round, size_loop,
  get_report_descriptor_size_from_interface_descriptors, dt_hid, dt_report,
}

abbrev pub IsByte : ℕ → Type 0
IsByte b = b < 256

-- A 16-bit size.
abbrev IsU16 : ℕ → Type 0
IsU16 n = n < 65536

abbrev FoundSize : Option ℕ → Type 0
FoundSize none = Unit
FoundSize (some n) = IsU16 n

find_report-FoundSize :
    (left i : ℕ) (extra : Bytes)
    → All IsByte extra
    → 6 + 3 * (i + left) ≤ length extra
    → Returns FoundSize (find_report extra i left)
unfolding find_report
find_report-FoundSize zero i extra a h = omega arith
find_report-FoundSize (suc left) i extra a h =
    Returns-bind IsByte FoundSize (read extra (6 + 3 * i)) _
      (Returns-read IsByte extra (6 + 3 * i) a (omega arith))
      λ t _ _. elim (Bool-cases (t == dt_report)) [
        | inr e ↦ rw e (find_report-FoundSize left (suc i) extra a (omega arith))
        | inl e ↦ rw e (
            Returns-bind IsByte FoundSize (read extra (6 + 3 * i + 2)) _
              (Returns-read IsByte extra (6 + 3 * i + 2) a (omega arith))
              λ high _ hh.
                Returns-bind IsByte FoundSize (read extra (6 + 3 * i + 1)) _
                  (Returns-read IsByte extra (6 + 3 * i + 1) a (omega arith))
                  λ low _ ll. omega arith)
      ]

hid_size-IsU16 : (extra : Bytes) → All IsByte extra → Returns IsU16 (hid_size extra)
unfolding hid_size
hid_size-IsU16 extra a = elim (Bool-cases (ltb (length extra) 6)) [
  | inl e ↦ rw e (omega arith)
  | inr e ↦ rw e (
      Returns-bind IsByte IsU16 (read extra 5) _ (Returns-read IsByte extra 5 a (ground arith))
        λ n _ _. elim (Bool-cases (ltb (length extra) (6 + 3 * n))) [
          | inl f ↦ rw f (omega arith)
          | inr f ↦ rw f (
              Returns-bind FoundSize IsU16 (find_report extra 0 n) _
                (find_report-FoundSize n 0 extra a (ground arith))
                elim [ none ↦ λ _ _. omega arith | some s ↦ λ _ h. h ])
        ])
]

-- A round finds a size, or moves on.
abbrev Moved : Bytes → Round → Type 0
Moved extra (result n) = IsU16 n
Moved extra (next extra') = All IsByte extra' × (length extra' < length extra)

All-drop : (n : ℕ) (xs : Bytes) → All IsByte xs → All IsByte (drop n xs)
All-drop zero xs a = a
All-drop (suc n) [] a = a
All-drop (suc n) (x ∷ xs) a = All-drop n xs a.1

size_round-Moved :
    (extra : Bytes) → All IsByte extra → 2 ≤ length extra → Returns (Moved extra) (size_round extra)
unfolding size_round
size_round-Moved extra a h =
    Returns-bind IsByte (Moved extra) (read extra 1) _ (Returns-read IsByte extra 1 a (omega arith))
      λ t _ _. elim (Bool-cases (t == dt_hid)) [
        | inl e ↦ rw e (
            Returns-bind IsU16 (Moved extra) (hid_size extra) _ (hid_size-IsU16 extra a) λ n _ s. s)
        | inr e ↦ rw e (
            Returns-bind IsByte (Moved extra) (read extra 0) _
              (Returns-read IsByte extra 0 a (omega arith))
              λ n _ _. elim (Bool-cases (n == 0)) [
                | inl f ↦ rw f (omega arith)
                | inr f ↦ rw f (All-drop n extra a, shorter n f)
              ])
      ]
  where
    shorter : (n : ℕ) → (n == 0) ≡ false → length (drop n extra) < length extra
    shorter n f = ground (arith, length-drop n extra)

size_loop-IsU16 :
    (fuel : ℕ) (extra : Bytes)
    → All IsByte extra
    → length extra ≤ fuel
    → Returns IsU16 (size_loop fuel extra)
unfolding size_loop
size_loop-IsU16 zero extra a h = ground arith
size_loop-IsU16 (suc fuel) extra a h = elim (Bool-cases (ltb (length extra) 2)) [
  | inl e ↦ rw e (omega arith)
  | inr e ↦ rw e (
      Returns-bind (Moved extra) IsU16 (size_round extra) _
        (size_round-Moved extra a (ground arith))
        elim [
          | result n ↦ λ _ s. s
          | next extra' ↦ λ _ m. size_loop-IsU16 fuel extra' m.0 (omega arith)
        ])
]

-- Whatever bytes follow an interface, the search for the size of its report descriptor ends, reads
-- none outside of them, and gives a 16-bit size.
get_report_descriptor_size-IsU16 :
    (d : InterfaceDescriptor)
    → All IsByte d.extra
    → Returns IsU16 (get_report_descriptor_size_from_interface_descriptors d)
unfolding get_report_descriptor_size_from_interface_descriptors
get_report_descriptor_size-IsU16 d a = size_loop-IsU16 (length d.extra) d.extra a (omega arith)
