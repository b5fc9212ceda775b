-- ===== src/Windows/Reconstruct/Items/Buffer.antt =====
-- Bytes written behind those in a buffer, cut at its end.
use usb_hid_tool.Prelude.{
  ℕ, zero, suc, ◌<◌, ◌≡◌, refl, sym, ap, ◌∙◌, List, [], ◌∷◌, ◌++◌, length, take, set, ltb,
  length-set, length-append, length-take, take_all, inl, inr, Bool-cases, arith,
}
use usb_hid_tool.Run.{append_assoc}
use usb_hid_tool.Windows.Reconstruct.Items.{RdBuffer, rd_append_byte}
use usb_hid_tool.Windows.Reconstruct.Items.Keys.{append_all, IsBuffer, written}

take-set :
    (xs : List ℕ) (i v : ℕ) → i < length xs → take (suc i) (set xs i v) ≡ take i xs ++ (v ∷ [])
take-set [] i v h = absurd (omega arith)
take-set (x ∷ xs) zero v h = refl
take-set (x ∷ xs) (suc i) v h = ap (λ l. x ∷ l) (take-set xs i v (omega arith))

pub length-written : (b : RdBuffer) → IsBuffer b → length (written b) ≡ b.byte_idx
length-written b h = omega (arith, length-take b.byte_idx b.buf, h.0, h.1)

take-prefix : (n : ℕ) (xs ys : List ℕ) → length xs ≡ n → take n (xs ++ ys) ≡ xs
take-prefix zero [] ys h = refl
take-prefix zero (x ∷ xs) ys h = absurd (omega arith)
take-prefix (suc n) [] ys h = absurd (omega arith)
take-prefix (suc n) (x ∷ xs) ys h = ap (λ l. x ∷ l) (take-prefix n xs ys (omega arith))

take-append-take : (n : ℕ) (xs ys : List ℕ) → take n (take n xs ++ ys) ≡ take n (xs ++ ys)
take-append-take zero xs ys = refl
take-append-take (suc n) [] ys = refl
take-append-take (suc n) (x ∷ xs) ys = ap (λ l. x ∷ l) (take-append-take n xs ys)

-- `b'` is `b` with the bytes `xs` written behind it, cut at the end of the buffer.
abbrev pub IsExtended : List ℕ → RdBuffer → RdBuffer → Type 0
IsExtended xs b b' =
    IsBuffer b' × (b'.buf_size ≡ b.buf_size) × (written b' ≡ take b.buf_size (written b ++ xs))

pub append_nil {ℓ} : {A : Type ℓ} (xs : List A) → xs ++ [] ≡ xs
append_nil [] = refl
append_nil (x ∷ xs) = ap (λ l. x ∷ l) (append_nil xs)

pub IsExtended-nil : (b : RdBuffer) → IsBuffer b → IsExtended [] b b
IsExtended-nil b h = (
  h,
  refl,
  sym (
      ap (take b.buf_size) (append_nil (written b))
      ∙ take_all b.buf_size (written b) (omega (arith, length-written b h, h.0))),
)

pub IsExtended-append :
    (xs ys : List ℕ) (a b c : RdBuffer)
    → IsExtended xs a b
    → IsExtended ys b c
    → IsExtended (xs ++ ys) a c
IsExtended-append xs ys a b c h k = (
  k.0,
  k.1 ∙ h.1,
  k.2
      ∙ ap (λ n. take n (written b ++ ys)) h.1
      ∙ ap (λ l. take a.buf_size (l ++ ys)) h.2
      ∙ take-append-take a.buf_size (written a ++ xs) ys
      ∙ ap (take a.buf_size) (append_assoc (written a) xs ys),
)

-- One byte behind those written, if there is room.
rd_append_byte-IsExtended :
    (x : ℕ) (b : RdBuffer) → IsBuffer b → IsExtended (x ∷ []) b (rd_append_byte x b)
unfolding rd_append_byte
rd_append_byte-IsExtended x b h = elim (Bool-cases (ltb b.byte_idx b.buf_size)) [
  | inl e ↦ rw e (
    (ground arith, length-set b.buf b.byte_idx x ∙ h.1),
    refl,
    take-set b.buf b.byte_idx x (ground arith)
        ∙ sym (
            take_all b.buf_size (written b ++ (x ∷ []))
              (ground (arith, length-append (written b) (x ∷ []), length-written b h))),
  )
  | inr e ↦ rw e (
    h,
    refl,
    sym (take-prefix b.buf_size (written b) (x ∷ []) (ground (arith, length-written b h, h.0))),
  )
]

pub append_all-IsExtended :
    (xs : List ℕ) (b : RdBuffer) → IsBuffer b → IsExtended xs b (append_all xs b)
append_all-IsExtended [] b h = IsExtended-nil b h
append_all-IsExtended (x ∷ xs) b h =
    let first = rd_append_byte-IsExtended x b h in
    IsExtended-append (x ∷ []) xs b (rd_append_byte x b) (append_all xs (rd_append_byte x b)) first
      (append_all-IsExtended xs (rd_append_byte x b) first.0)
