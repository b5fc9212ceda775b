-- ===== src/Windows/DeviceInfo/Serial.antt =====
-- The serial number that `hid_internal_get_usb_info` takes out of an instance id.
use usb_hid_tool.Prelude.{ℕ, ◌≡◌, ◌≢◌, refl, ap, ◌∙◌, [], ◌∷◌, ◌++◌, none, some, arith}
use usb_hid_tool.Run.{All}
use usb_hid_tool.Windows.DevNode.{Wide}
use usb_hid_tool.Windows.DeviceInfo.{scan_back, reverse_onto, serial_of_instance}

-- A character that the search passes over.
abbrev IsPlain : ℕ → Type 0
IsPlain c = (c ≢ b'&') × (c ≢ b'\\')

reverse_onto-append :
    (xs ys acc : Wide) → reverse_onto (xs ++ ys) acc ≡ reverse_onto ys (reverse_onto xs acc)
unfolding reverse_onto
reverse_onto-append [] ys acc = refl
reverse_onto-append (x ∷ xs) ys acc = reverse_onto-append xs ys (x ∷ acc)

reverse_onto-split :
    (xs acc acc' : Wide) → reverse_onto xs (acc ++ acc') ≡ reverse_onto xs acc ++ acc'
unfolding reverse_onto
reverse_onto-split [] acc acc' = refl
reverse_onto-split (x ∷ xs) acc acc' = reverse_onto-split xs (x ∷ acc) acc'

reverse_onto_twice : (xs acc : Wide) → reverse_onto (reverse_onto xs acc) [] ≡ reverse_onto acc xs
unfolding reverse_onto
reverse_onto_twice [] acc = refl
reverse_onto_twice (x ∷ xs) acc = reverse_onto_twice xs (x ∷ acc)

All-reverse_onto :
    (P : ℕ → Type 0) (xs acc : Wide) → All P xs → All P acc → All P (reverse_onto xs acc)
unfolding reverse_onto
All-reverse_onto P [] acc h k = k
All-reverse_onto P (x ∷ xs) acc h k = All-reverse_onto P xs (x ∷ acc) h.1 (h.0, k)

-- Plain characters are passed over, and stand behind what is met next.
scan_back-plain :
    (rs before behind : Wide) (c : ℕ)
    → All IsPlain rs
    → scan_back (rs ++ (c ∷ before)) behind ≡ scan_back (c ∷ before) (reverse_onto rs behind)
unfolding scan_back reverse_onto
scan_back-plain [] before behind c h = refl
scan_back-plain (r ∷ []) before behind c h = ground (arith, h.0)
scan_back-plain (r ∷ r' ∷ rs) before behind c h =
    ground (arith, h.0, scan_back-plain (r' ∷ rs) before (r ∷ behind) c h.1)

-- An instance id that ends in plain characters behind another one.
serial_of_instance-ends :
    (front serial : Wide) (c : ℕ)
    → All IsPlain serial
    → serial_of_instance (front ++ (c ∷ serial)) ≡ scan_back (c ∷ reverse_onto front []) serial
unfolding serial_of_instance reverse_onto
serial_of_instance-ends front serial c h =
    let tail = c ∷ reverse_onto front [] in
    let parts : reverse_onto (front ++ (c ∷ serial)) [] ≡ reverse_onto serial [] ++ tail =
      reverse_onto-append front (c ∷ serial) [] ∙ reverse_onto-split serial [] tail in
    ap (λ l. scan_back l []) parts
    ∙ scan_back-plain (reverse_onto serial []) (reverse_onto front []) [] c
        (All-reverse_onto IsPlain serial [] h tt)
    ∙ ap (scan_back tail) (reverse_onto_twice serial [])

-- The reverse of a text that is not empty.
reverse_onto-head :
    (front acc : Wide)
    → front ≢ []
    → (d : ℕ) × (before : Wide) × (reverse_onto front acc ≡ d ∷ before)
unfolding reverse_onto
reverse_onto-head [] acc n = absurd (n refl)
reverse_onto-head (x ∷ []) acc n = (x, acc, refl)
reverse_onto-head (x ∷ y ∷ front) acc n =
    reverse_onto-head (y ∷ front) (x ∷ acc) (λ e. ground (arith, e))

scan_back-here :
    (d : ℕ) (before serial : Wide) → scan_back (b'\\' ∷ d ∷ before) serial ≡ some serial
unfolding scan_back
scan_back-here d before serial = refl

scan_back-none : (d : ℕ) (before serial : Wide) → scan_back (b'&' ∷ d ∷ before) serial ≡ none
unfolding scan_back
scan_back-none d before serial = refl

-- The serial number is what stands behind the last backslash of an instance id, if that is not its
-- first character and no "&" stands behind it; if one does, behind anything, there is no serial number.
serial_of_instance-last :
    (front serial : Wide)
    → front ≢ []
    → All IsPlain serial
    → (serial_of_instance (front ++ (b'\\' ∷ serial)) ≡ some serial)
      × (serial_of_instance (front ++ (b'&' ∷ serial)) ≡ none)
serial_of_instance-last front serial n h =
    let r = reverse_onto-head front [] n in
    (
      serial_of_instance-ends front serial b'\\' h
          ∙ ap (λ l. scan_back (b'\\' ∷ l) serial) r.2
          ∙ scan_back-here r.0 r.1 serial,
      serial_of_instance-ends front serial b'&' h
          ∙ ap (λ l. scan_back (b'&' ∷ l) serial) r.2
          ∙ scan_back-none r.0 r.1 serial,
    )
