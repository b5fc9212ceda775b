-- ===== src/Race/Command/RoundTrip.antt =====
-- Commands that are printed and read again, and what a text is refused for.
use usb_hid_tool.Prelude.{
  ℕ, ◌<◌, ◌≡◌, ◌⊎◌, refl, sym, ap, subst, ◌∙◌, true, false, List, [], ◌∷◌, ◌++◌, Option, none, some,
  map, ltb, arith, Bool-cases, inl, inr,
}
use usb_hid_tool.Prelude.Int.{ℤ, pos, negsuc}
use usb_hid_tool.Run.{All, append_assoc}
use usb_hid_tool.Race.Command.{
  Bytes, Qt, empty_command, invalid_byte, ParsedCommand, failed, parsed, parse_tokens,
  parse_hex_string, to_hex_string,
}

abbrev pub IsByte : ℕ → Type 0
IsByte b = b < 256

-- What the printed form of a command relies on: the text of bytes with blanks between is clean, it
-- splits into the texts of the bytes, it is empty only for no byte, and `toInt` reads two digits.
pub record Prints {T : Type 0} (qt : Qt T) : Type 0 where
  pub clean :
      (bs : Bytes) → qt.cleaned (qt.join (map qt.two_digits bs)) ≡ qt.join (map qt.two_digits bs)
  pub splits : (bs : Bytes) → qt.split (qt.join (map qt.two_digits bs)) ≡ map qt.two_digits bs
  pub empty : (b : ℕ) (bs : Bytes) → qt.is_empty (qt.join (map qt.two_digits (b ∷ bs))) ≡ false
  pub reads : (b : ℕ) → IsByte b → qt.to_int (qt.two_digits b) ≡ some (pos b)

module _ {T : Type 0} (qt : Qt T) where
  tokens-printed :
      (p : Prints qt) (bs acc : Bytes)
      → All IsByte bs
      → parse_tokens qt (map qt.two_digits bs) acc ≡ parsed (acc ++ bs)
  unfolding parse_tokens
  tokens-printed p [] acc a = ap parsed (sym (append_nil acc))
    where
      append_nil : (xs : Bytes) → xs ++ [] ≡ xs
      append_nil [] = refl
      append_nil (x ∷ xs) = ap (λ l. x ∷ l) (append_nil xs)
  tokens-printed p (b ∷ bs) acc a = ground (
    arith,
    p.reads b a.0,
    a.0,
    tokens-printed p bs (acc ++ (b ∷ [])) a.1,
    append_assoc acc (b ∷ []) bs,
  )

  -- Where the text functions print and read two digits of a byte (`Prints`), a command of at least
  -- one byte, printed in hexadecimal, is read back as it was.
  pub parse_hex_string-to_hex_string :
      (p : Prints qt) (b : ℕ) (bs : Bytes)
      → All IsByte (b ∷ bs)
      → parse_hex_string qt (to_hex_string qt (b ∷ bs)) ≡ parsed (b ∷ bs)
  unfolding parse_hex_string to_hex_string
  parse_hex_string-to_hex_string p b bs a =
      ground
        (arith, p.clean (b ∷ bs), p.splits (b ∷ bs), p.empty b bs, tokens-printed p (b ∷ bs) [] a)

  -- A token is the number of a byte.
  abbrev IsToken : T → ℕ → Type 0
  IsToken token b = (qt.to_int token ≡ some (pos b)) × (b < 256)

  -- The tokens are the numbers of these bytes, in order.
  abbrev AreTokens : List T → Bytes → Type 0
  AreTokens [] [] = Unit
  AreTokens (token ∷ tokens) (b ∷ bs) = IsToken token b × AreTokens tokens bs
  AreTokens [] (b ∷ bs) = ⊥
  AreTokens (token ∷ tokens) [] = ⊥

  -- The first token that is no number of a byte.
  pub record IsFirstBad (tokens : List T) (bad : T) : Type 0 where
    pub before : List T
    pub after : List T
    pub bytes : Bytes
    pub stands : tokens ≡ before ++ (bad ∷ after)
    pub good : AreTokens before bytes
    pub no_byte : (b : ℕ) → IsToken bad b → ⊥

  -- What the tokens are read as, behind the bytes that were read before.
  abbrev pub Reads : List T → Bytes → ParsedCommand T → Type 0
  Reads tokens acc (parsed bytes) = (bs : Bytes) × (bytes ≡ acc ++ bs) × AreTokens tokens bs
  Reads tokens acc (failed empty_command) = ⊥
  Reads tokens acc (failed (invalid_byte token)) = IsFirstBad tokens token

  step-Reads :
      (token : T) (tokens : List T) (acc : Bytes) (b : ℕ) (r : ParsedCommand T)
      → IsToken token b
      → Reads tokens (acc ++ (b ∷ [])) r
      → Reads (token ∷ tokens) acc r
  step-Reads token tokens acc b (parsed bytes) t (bs, e, h) =
      (b ∷ bs, e ∙ append_assoc acc (b ∷ []) bs, (t, h))
  step-Reads token tokens acc b (failed empty_command) t h = h
  step-Reads token tokens acc b (failed (invalid_byte bad)) t h = record {
    before = token ∷ h.before;
    after = h.after;
    bytes = b ∷ h.bytes;
    stands = ap (◌∷◌ token) h.stands;
    good = (t, h.good);
    no_byte = h.no_byte;
  }

  bad-Reads :
      (token : T) (tokens : List T)
      → ((b : ℕ) → IsToken token b → ⊥)
      → IsFirstBad (token ∷ tokens) token
  bad-Reads token tokens h = record {
    before = [];
    after = tokens;
    bytes = [];
    stands = refl;
    good = tt;
    no_byte = h;
  }

  parse_tokens-Reads :
      (tokens : List T) (acc : Bytes) → Reads tokens acc (parse_tokens qt tokens acc)
  unfolding parse_tokens
  parse_tokens-Reads [] acc = ([], sym (append_nil acc), tt)
    where
      append_nil : (xs : Bytes) → xs ++ [] ≡ xs
      append_nil [] = refl
      append_nil (x ∷ xs) = ap (λ l. x ∷ l) (append_nil xs)
  parse_tokens-Reads (token ∷ tokens) acc =
      read_token (λ bs. parse_tokens-Reads tokens bs) (qt.to_int token) refl
    where
      becomes :
          (r : ParsedCommand T)
          → parse_tokens qt (token ∷ tokens) acc ≡ r
          → Reads (token ∷ tokens) acc r
          → Reads (token ∷ tokens) acc (parse_tokens qt (token ∷ tokens) acc)
      becomes r q h = subst (Reads (token ∷ tokens) acc) (sym q) h

      refused :
          ((b : ℕ) → IsToken token b → ⊥)
          → parse_tokens qt (token ∷ tokens) acc ≡ failed (invalid_byte token)
          → Reads (token ∷ tokens) acc (parse_tokens qt (token ∷ tokens) acc)
      refused h q = becomes (failed (invalid_byte token)) q (bad-Reads token tokens h)

      read_token :
          ((bs : Bytes) → Reads tokens bs (parse_tokens qt tokens bs))
          → (o : Option ℤ) → qt.to_int token ≡ o
          → Reads (token ∷ tokens) acc (parse_tokens qt (token ∷ tokens) acc)
      read_token rec none e = refused (λ b t. ground (arith, e, t.0)) (ground (arith, e))
      read_token rec (some (negsuc n)) e =
          refused (λ b t. ground (arith, e, t.0)) (ground (arith, e))
      read_token rec (some (pos n)) e = elim (Bool-cases (ltb n 256)) [
        | inl f ↦
            becomes (parse_tokens qt tokens (acc ++ (n ∷ []))) (ground (arith, e, f))
              (step-Reads token tokens acc n _ (e, ground (arith, f)) (rec (acc ++ (n ∷ []))))
        | inr f ↦ refused (λ b t. ground (arith, e, f, t.0, t.1)) (ground (arith, e, f))
      ]

  -- A text is refused as empty only when nothing is left of it. Else it is read as the bytes that its
  -- tokens are the numbers of, one for each token, in order; or it is refused with the first of its
  -- tokens that is no number from 0 to 255.
  pub parse_hex_string-Reads :
      (text : T)
      → (parse_hex_string qt text ≡ failed empty_command) × (qt.is_empty (qt.cleaned text) ≡ true)
        ⊎ Reads (qt.split (qt.cleaned text)) [] (parse_hex_string qt text)
  unfolding parse_hex_string
  parse_hex_string-Reads text = elim (Bool-cases (qt.is_empty (qt.cleaned text))) [
    | inl e ↦ inl (rw e refl, e)
    | inr e ↦ inr (rw e (parse_tokens-Reads (qt.split (qt.cleaned text)) []))
  ]
