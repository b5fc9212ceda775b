-- ===== src/MainWindow/Settings/Serial.antt =====
-- What the settings must be for a serial number, and what its text is made of.
use usb_hid_tool.Prelude.{
  ℕ, suc, zero, max, ◌<◌, ◌≡◌, ◌≢◌, refl, ◌∙◌, Bool, true, false, List, [], ◌∷◌, ◌++◌, Option, none,
  some, ◌==◌, arith, Bool-cases, inl, inr,
}
use usb_hid_tool.Prelude.Int.{ℤ, pos, negsuc}
use usb_hid_tool.MainWindow.Settings.{
  SerialText, SnModeSettings, append_if, range_of, build_serial_string, validate_serial_range,
}

module _ {T : Type 0} (text : SerialText T) (sn_mode : SnModeSettings T) where
  -- The settings hold a start number and a positive width, and the next number is not below the start.
  pub record IsRange (next_serial width next : ℕ) : Type 0 where
    pub start : ℕ
    pub starts : text.to_u_long_long sn_mode.sn_start ≡ some start
    pub is_width : text.to_int sn_mode.sn_width ≡ some (pos width)
    pub positive : 0 < width
    pub from_start : next ≡ max start next_serial

  -- What the tests of the range give.
  abbrev pub Ranges : ℕ → Option (ℕ × ℕ) → Type 0
  Ranges next_serial none = (width next : ℕ) → IsRange next_serial width next → ⊥
  Ranges next_serial (some (width, next)) = IsRange next_serial width next

  range_of-Ranges :
      (next_serial : ℕ) (s : Option ℕ) (w : Option ℤ)
      → text.to_u_long_long sn_mode.sn_start ≡ s
      → text.to_int sn_mode.sn_width ≡ w
      → Ranges next_serial (range_of text sn_mode next_serial s w)
  range_of-Ranges next_serial none w e k = λ width next r. ground (arith, e, r.starts)
  range_of-Ranges next_serial (some start) none e k = λ width next r. ground (arith, k, r.is_width)
  range_of-Ranges next_serial (some start) (some (negsuc n)) e k =
      λ width next r. ground (arith, k, r.is_width)
  range_of-Ranges next_serial (some start) (some (pos zero)) e k =
      λ width next r. ground (arith, k, r.is_width, r.positive)
  range_of-Ranges next_serial (some start) (some (pos (suc n))) e k =
      let t : (suc n == 0) ≡ false = ground arith in
      rw (t, Ranges)
        (record {
          start = start;
          starts = e;
          is_width = k;
          positive = omega arith;
          from_start = ground arith;
        })

  pub validate_serial_range-Ranges :
      (next_serial : ℕ) → Ranges next_serial (validate_serial_range text sn_mode next_serial)
  unfolding validate_serial_range
  validate_serial_range-Ranges next_serial =
      range_of-Ranges next_serial (text.to_u_long_long sn_mode.sn_start)
        (text.to_int sn_mode.sn_width) refl refl

  -- A text behind which others are appended.
  abbrev appended_texts : T → List T → T
  appended_texts t [] = t
  appended_texts t (u ∷ us) = appended_texts (text.append t u) us

  abbrev chosen : Bool → T → List T
  chosen true code = code ∷ []
  chosen false code = []

  appended_texts-chosen :
      (b : Bool) (code t : T) (us : List T)
      → appended_texts (append_if text sn_mode b code t) us ≡ appended_texts t (chosen b code ++ us)
  appended_texts-chosen true code t us = refl
  appended_texts-chosen false code t us = refl

  -- The parts of a serial number behind the prefix, in their order.
  abbrev pub parts : T → List T
  parts serial_num =
      chosen sn_mode.use_plant sn_mode.plant_code
      ++ (chosen sn_mode.use_manufacturer sn_mode.manufacturer_code
          ++ (chosen sn_mode.use_product sn_mode.product_code
              ++ (serial_num
                  ∷ (chosen sn_mode.use_month sn_mode.month_code
                      ++ (chosen sn_mode.use_year sn_mode.year_code ++ [])))))

  -- The number fills its width, and the text is made of the prefix and the parts.
  pub record IsSerial (next width : ℕ) (serial : T) : Type 0 where
    pub fits : text.size (text.padded next width) ≡ width
    pub made :
        serial ≡ appended_texts (text.trimmed sn_mode.sn_prefix) (parts (text.padded next width))

  -- What building a serial number gives.
  abbrev pub Builds : ℕ → ℕ → Option T → Type 0
  Builds next width none = text.size (text.padded next width) ≢ width
  Builds next width (some serial) = IsSerial next width serial

  pub build_serial_string-Builds :
      (next width : ℕ) → Builds next width (build_serial_string text sn_mode next width)
  unfolding build_serial_string
  build_serial_string-Builds next width =
      elim (Bool-cases (text.size (text.padded next width) == width)) [
        | inr e ↦ rw (e, Builds) (ground (arith, e))
        | inl e ↦
            rw (e, Builds)
              (record { fits = ground (arith, e); made = built (text.padded next width) })
      ]
    where
      built :
          (num : T)
          → let x0 = text.trimmed sn_mode.sn_prefix in
            let x1 = append_if text sn_mode sn_mode.use_plant sn_mode.plant_code x0 in
            let x2 = append_if text sn_mode sn_mode.use_manufacturer sn_mode.manufacturer_code x1 in
            let x3 = append_if text sn_mode sn_mode.use_product sn_mode.product_code x2 in
            let x5 =
              append_if text sn_mode sn_mode.use_month sn_mode.month_code (text.append x3 num) in
            append_if text sn_mode sn_mode.use_year sn_mode.year_code x5
            ≡ appended_texts x0 (parts num)
      built num =
          let x0 = text.trimmed sn_mode.sn_prefix in
          let x1 = append_if text sn_mode sn_mode.use_plant sn_mode.plant_code x0 in
          let x2 = append_if text sn_mode sn_mode.use_manufacturer sn_mode.manufacturer_code x1 in
          let x3 = append_if text sn_mode sn_mode.use_product sn_mode.product_code x2 in
          let x5 =
            append_if text sn_mode sn_mode.use_month sn_mode.month_code (text.append x3 num) in
          let year = chosen sn_mode.use_year sn_mode.year_code ++ [] in
          let month = chosen sn_mode.use_month sn_mode.month_code ++ year in
          let product = chosen sn_mode.use_product sn_mode.product_code ++ (num ∷ month) in
          let manufacturer = chosen sn_mode.use_manufacturer sn_mode.manufacturer_code ++ product in
          appended_texts-chosen sn_mode.use_year sn_mode.year_code x5 []
          ∙ appended_texts-chosen sn_mode.use_month sn_mode.month_code (text.append x3 num) year
          ∙ appended_texts-chosen sn_mode.use_product sn_mode.product_code x2 (num ∷ month)
          ∙ appended_texts-chosen sn_mode.use_manufacturer sn_mode.manufacturer_code x1 product
          ∙ appended_texts-chosen sn_mode.use_plant sn_mode.plant_code x0 manufacturer
