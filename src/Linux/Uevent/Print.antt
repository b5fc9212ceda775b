-- ===== src/Linux/Uevent/Print.antt =====
-- The `uevent` text that the kernel writes, and what the two parsers make of it.
use mathlib.Core.List.{append-nil}
use usb_hid_tool.Prelude.{
  ℕ, ◌+◌, ◌-◌, ◌*◌, ◌%◌, ◌^◌, ◌<◌, ◌≡◌, ◌≢◌, refl, sym, ap, ◌∙◌, true, List, [], ◌∷◌, ◌++◌, map,
  none, some, ltb, if◌then◌else◌, arith,
}
use usb_hid_tool.Run.{All}
use usb_hid_tool.Linux.Uevent.{
  Bytes, hex_digit, hex_digits, hex_number, prefixed, skip_space, signed, scan_hex, Ids,
  scan_product, scan_vendor, scan_ids,
}

-- An upper case hexadecimal digit, as `%X` prints it.
pub hex_char : ℕ → ℕ
hex_char d = if ltb d 10 then b'0' + d else b'A' + (d - 10)

abbrev pub IsDigit : ℕ → Type 0
IsDigit d = d < 16

-- The number that digits stand for, most significant first, read onto `acc`.
abbrev pub value : ℕ → List ℕ → ℕ
value acc [] = acc
value acc (d ∷ ds) = value (acc * 16 + d) ds

hex_digit-hex_char : (d : ℕ) → IsDigit d → hex_digit (hex_char d) ≡ some d
unfolding hex_digit hex_char
hex_digit-hex_char d h = ground arith

-- Nothing of `rest` is taken for a digit or a prefix.
abbrev Stops : Bytes → Type 0
Stops [] = Unit
Stops (c ∷ cs) = (hex_digit c ≡ none) × (c ≢ b'x') × (c ≢ b'X')

hex_digits-print :
    (ds : List ℕ) (acc : ℕ) (rest : Bytes)
    → All IsDigit ds
    → Stops rest
    → hex_digits acc (map hex_char ds ++ rest) ≡ (value acc ds, rest)
unfolding hex_digits
hex_digits-print [] acc [] a s = refl
hex_digits-print [] acc (c ∷ cs) a s = rw (s.0, hex_digits)
hex_digits-print (d ∷ ds) acc rest a s =
    rw (hex_digit-hex_char d a.0, hex_digits) (hex_digits-print ds (acc * 16 + d) rest a.1 s)

hex_number-print :
    (d : ℕ) (ds : List ℕ) (rest : Bytes)
    → All IsDigit (d ∷ ds)
    → Stops rest
    → hex_number (map hex_char (d ∷ ds) ++ rest) ≡ some (value 0 (d ∷ ds), rest)
unfolding hex_number
hex_number-print d ds rest a s =
    rw (hex_digit-hex_char d a.0, hex_number)
      (ap some (hex_digits-print ds d rest a.1 s ∙ ap (λ v. (value v ds, rest)) (omega arith)))

pub hex_char-ne :
    (d : ℕ)
    → IsDigit d
    → (hex_char d ≢ b'x')
      × (hex_char d ≢ b'X')
      × (hex_char d ≢ b'-')
      × (hex_char d ≢ b'+')
      × (hex_char d ≢ b' ')
      × (13 < hex_char d)
unfolding hex_char
hex_char-ne d h = ground arith

prefixed-print :
    (d : ℕ) (ds : List ℕ) (rest : Bytes)
    → All IsDigit (d ∷ ds)
    → Stops rest
    → prefixed (map hex_char (d ∷ ds) ++ rest) ≡ some (value 0 (d ∷ ds), rest)
unfolding prefixed
prefixed-print d [] [] a s = hex_number-print d [] [] a s
prefixed-print d [] (c ∷ cs) a s = ground (arith, hex_number-print d [] (c ∷ cs) a s)
prefixed-print d (e ∷ ds) rest a s =
    ground (arith, hex_number-print d (e ∷ ds) rest a s, hex_char-ne e a.1.0)

skip_space-print :
    (d : ℕ) (rest : Bytes) → IsDigit d → skip_space (hex_char d ∷ rest) ≡ hex_char d ∷ rest
unfolding skip_space
skip_space-print d rest h = ground (arith, hex_char-ne d h)

-- A printed number is read back, cut to the width of the variable.
scan_hex-print :
    (w : ℕ) (d : ℕ) (ds : List ℕ) (rest : Bytes)
    → All IsDigit (d ∷ ds)
    → Stops rest
    → value 0 (d ∷ ds) < 2 ^ 64
    → scan_hex w (map hex_char (d ∷ ds) ++ rest) ≡ some (value 0 (d ∷ ds) % 2 ^ w, rest)
unfolding scan_hex signed
scan_hex-print w d ds rest a s h =
    rw skip_space-print' (ground (arith, hex_char-ne d a.0, prefixed-print d ds rest a s))
  where
    skip_space-print' :
        skip_space (hex_char d ∷ (map hex_char ds ++ rest)) ≡ hex_char d ∷ (map hex_char ds ++ rest)
    skip_space-print' = skip_space-print d (map hex_char ds ++ rest) a.0

-- The digits of a printed number, at least one.
pub record Printed : Type 0 where
  pub lead : ℕ
  pub tail : List ℕ

abbrev pub print : Printed → Bytes
print n = map hex_char (n.lead ∷ n.tail)

abbrev pub number : Printed → ℕ
number n = value 0 (n.lead ∷ n.tail)

pub record IsPrinted (n : Printed) : Type 0 where
  pub digits : All IsDigit (n.lead ∷ n.tail)
  pub fits : number n < 2 ^ 64

abbrev pub print_ids : Printed → Printed → Printed → Bytes
print_ids a b c = print a ++ (b':' ∷ (print b ++ (b':' ∷ print c)))

colon-Stops : (rest : Bytes) → Stops (b':' ∷ rest)
unfolding hex_digit
colon-Stops rest = (refl, omega arith, omega arith)

scan_product-print :
    (c : Printed) (ids : Ids)
    → IsPrinted c
    → scan_product (print c) ids ≡ (record ids { product_id = number c % 2 ^ 16 }, true)
unfolding scan_product
scan_product-print c ids h = ground (arith, scanned)
  where
    scanned : scan_hex 16 (print c) ≡ some (number c % 2 ^ 16, [])
    scanned =
        ap (scan_hex 16) (sym (append-nil (print c)))
        ∙ scan_hex-print 16 c.lead c.tail [] h.digits tt h.fits

scan_vendor-print :
    (b c : Printed) (ids : Ids)
    → IsPrinted b
    → IsPrinted c
    → scan_vendor (print b ++ (b':' ∷ print c)) ids
      ≡ (record ids { vendor_id = number b % 2 ^ 16; product_id = number c % 2 ^ 16 }, true)
unfolding scan_vendor
scan_vendor-print b c ids hb hc =
    rw
      (
        scan_hex-print 16 b.lead b.tail (b':' ∷ print c) hb.digits (colon-Stops (print c)) hb.fits,
        scan_vendor,
      )
      (scan_product-print c (record ids { vendor_id = number b % 2 ^ 16 }) hc)

pub scan_ids-print :
    (a b c : Printed) (ids : Ids)
    → IsPrinted a
    → IsPrinted b
    → IsPrinted c
    → scan_ids (print_ids a b c) ids ≡ (
      record {
        bus_type = number a % 2 ^ 32;
        vendor_id = number b % 2 ^ 16;
        product_id = number c % 2 ^ 16;
      },
      true,
    )
unfolding scan_ids
scan_ids-print a b c ids ha hb hc =
    rw
      (
        scan_hex-print 32 a.lead a.tail (b':' ∷ (print b ++ (b':' ∷ print c))) ha.digits
            (colon-Stops (print b ++ (b':' ∷ print c))) ha.fits,
        scan_ids,
      )
      (scan_vendor-print b c (record ids { bus_type = number a % 2 ^ 32 }) hb hc)
