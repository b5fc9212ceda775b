-- ===== src/MainWindow/Csv/Duplicates.antt =====
-- A record that is written is found again.
use usb_hid_tool.Prelude.{
  ℕ, ◌≡◌, ◌⊎◌, inl, inr, ◌∙◌, sym, ap, Bool, true, false, ◌||◌, List, [], ◌∷◌, ◌++◌, some, arith,
  Bool-cases, Option-cases,
}
use usb_hid_tool.MainWindow.Csv.Appends.{CsvRecord, appended_records, appended_records-kept}
use usb_hid_tool.MainWindow.Csv.Current.{has_name-name, find_file-rest}
use usb_hid_tool.MainWindow.Csv.{
  CsvText, CsvName, CsvFile, FileSystem, has_name, find_file, current_csv_file_path, append_line,
  csv_row, append_csv_record, is_duplicate_row, has_duplicate_line, is_duplicate_record,
}

-- Texts that stand in a row as they are: without commas, and trimmed.
pub record IsPlain {T : Type 0} (text : CsvText T) (IsField : T → Type 0) : Type 0 where
  pub split_row :
      (a b c d e : T)
      → IsField a
      → IsField b
      → IsField c
      → IsField d
      → IsField e
      → text.split (text.trimmed (text.row (a ∷ b ∷ c ∷ d ∷ e ∷ []))) ≡ a ∷ b ∷ c ∷ d ∷ e ∷ []
  pub row_not_empty :
      (a b c d e : T)
      → IsField a
      → IsField b
      → IsField c
      → IsField d
      → IsField e
      → text.is_empty (text.trimmed (text.row (a ∷ b ∷ c ∷ d ∷ e ∷ []))) ≡ false
  pub trimmed_field : (a : T) → IsField a → text.trimmed a ≡ a
  pub safe_field : (a : T) → IsField a → text.safe a ≡ a
  pub ok_field : IsField text.ok
  pub same_refl : (a : T) → text.same a a ≡ true

module _ {T : Type 0} (text : CsvText T) (mac serial line : T) where
  -- A line that the test of duplicates finds.
  record IsFound : Type 0 where
    not_empty : text.is_empty (text.trimmed line) ≡ false
    not_header : text.is_header (text.trimmed line) ≡ false
    found : is_duplicate_row text mac serial (text.split (text.trimmed line)) ≡ true

  has_duplicate_line-append :
      (first : Bool) (lines : List T)
      → IsFound
      → has_duplicate_line text first mac serial (lines ++ (line ∷ [])) ≡ true
  unfolding has_duplicate_line
  has_duplicate_line-append first [] f = ground (arith, f.not_empty, f.not_header, f.found)
  has_duplicate_line-append first (l ∷ lines) f =
      rw (has_duplicate_line-append first lines f, has_duplicate_line-append false lines f)
        (ground arith)

module _ {T : Type 0} (fs : FileSystem T) (text : CsvText T) (mac serial line : T) where
  append_line-found :
      (name : CsvName) (file : CsvFile T) (files : List (CsvFile T))
      → IsFound text mac serial line
      → fs.can_read name ≡ true
      → find_file name files ≡ some file
      → is_duplicate_record fs text mac serial (append_line fs name line files) ≡ true
  unfolding find_file is_duplicate_record append_line
  append_line-found name file [] f r e = absurd (ground arith)
  append_line-found name file (g ∷ files) f r e = elim (Bool-cases (has_name name g)) [
    | inl h ↦ rw (
      h,
      ap fs.can_read (has_name-name name g h) ∙ r,
      has_duplicate_line-append text mac serial line true g.content f,
    )
    | inr h ↦
        rw (h, append_line-found name file files f r (find_file-rest name g file files h e))
          (ground arith)
  ]

module _ {T : Type 0} (fs : FileSystem T) (text : CsvText T) (time mac serial burn print : T) where
  -- A new file that holds the header and a row.
  new_file-found :
      (mac' serial' : T) (name : CsvName) (files : List (CsvFile T))
      → IsFound text mac' serial' (csv_row text time mac serial burn print)
      → fs.can_read name ≡ true
      → is_duplicate_record fs text mac' serial' (
          record {
            name = name;
            content = text.header ∷ csv_row text time mac serial burn print ∷ [];
          }
          ∷ files)
        ≡ true
  unfolding is_duplicate_record
  new_file-found mac' serial' name files f r = rw (
    r,
    has_duplicate_line-append text mac' serial' (csv_row text time mac serial burn print) true
        (text.header ∷ []) f,
  )

  append_csv_record-found :
      (mac' serial' : T) (day : ℕ) (files : List (CsvFile T))
      → IsFound text mac' serial' (csv_row text time mac serial burn print)
      → fs.can_read (current_csv_file_path fs day files) ≡ true
      → (append_csv_record fs text day time mac serial burn print files).0 ≡ true
      → is_duplicate_record fs text mac' serial'
          (append_csv_record fs text day time mac serial burn print files).1
        ≡ true
  unfolding append_csv_record
  append_csv_record-found mac' serial' day files f r ok =
      elim (Bool-cases (fs.can_append (current_csv_file_path fs day files))) [
        | inl a ↦ elim (Option-cases (find_file (current_csv_file_path fs day files) files)) [
          | inl n ↦
              rw (a, n) (new_file-found mac' serial' (current_csv_file_path fs day files) files f r)
          | inr n ↦
              rw (a, n.1)
                (append_line-found fs text mac' serial' (csv_row text time mac serial burn print)
                  (current_csv_file_path fs day files) n.0 files f r n.1)
        ]
        | inr a ↦ absurd (ground (arith, a, ok))
      ]

module _ {T : Type 0} (text : CsvText T) (IsField : T → Type 0) (plain : IsPlain text IsField) where
  plain_row-found :
      (time mac serial print mac' serial' : T)
      → IsField time
      → IsField mac
      → IsField serial
      → IsField print
      → text.is_header (text.trimmed (csv_row text time mac serial text.ok print)) ≡ false
      → text.same_letters mac mac' ≡ true ⊎ serial ≡ serial'
      → IsFound text mac' serial' (csv_row text time mac serial text.ok print)
  unfolding is_duplicate_row
  plain_row-found time mac serial print mac' serial' ft fm fs fp nh same = record {
    not_empty =
        rw (csv_row, plain.safe_field mac fm, plain.safe_field serial fs)
          (plain.row_not_empty time mac serial text.ok print ft fm fs plain.ok_field fp);
    not_header = nh;
    found = ap (is_duplicate_row text mac' serial') cols ∙ columns_match;
  }
    where
      cols :
          text.split (text.trimmed (csv_row text time mac serial text.ok print))
          ≡ time ∷ mac ∷ serial ∷ text.ok ∷ print ∷ []
      cols =
          rw (csv_row, plain.safe_field mac fm, plain.safe_field serial fs)
            (plain.split_row time mac serial text.ok print ft fm fs plain.ok_field fp)

      same_either :
          text.same_letters mac mac' ≡ true ⊎ serial ≡ serial'
          → (text.same_letters mac mac' || text.same serial serial') ≡ true
      same_either (inl e) = ground (arith, e)
      same_either (inr e) = rw (sym e, plain.same_refl serial) (ground arith)

      columns_match :
          is_duplicate_row text mac' serial' (time ∷ mac ∷ serial ∷ text.ok ∷ print ∷ []) ≡ true
      columns_match =
          rw
            (
              plain.trimmed_field text.ok plain.ok_field,
              plain.trimmed_field mac fm,
              plain.trimmed_field serial fs,
              plain.same_refl text.ok,
            )
            (same_either same)

  -- Where texts without commas and blanks at their ends stand in a row as they are: when a record
  -- of such texts, with the burn result OK, whose line does not start like the header, is appended to
  -- a file that can be read, then every search for the same MAC address (in letters of either case) or
  -- the same serial number finds a duplicate, whatever else the files hold, at once and behind any
  -- number of further records.
  pub append_csv_record-is_duplicate_record :
      (fs : FileSystem T) (day : ℕ) (files : List (CsvFile T))
      (time mac serial print mac' serial' : T) (later : List (CsvRecord T))
      → IsField time
      → IsField mac
      → IsField serial
      → IsField print
      → text.is_header (text.trimmed (csv_row text time mac serial text.ok print)) ≡ false
      → fs.can_read (current_csv_file_path fs day files) ≡ true
      → (append_csv_record fs text day time mac serial text.ok print files).0 ≡ true
      → text.same_letters mac mac' ≡ true ⊎ serial ≡ serial'
      → is_duplicate_record fs text mac' serial' (
          appended_records fs text later
            (append_csv_record fs text day time mac serial text.ok print files).1)
        ≡ true
  append_csv_record-is_duplicate_record fs day files time mac serial print mac' serial' later ft fm
        fn fp nh r ok same =
      appended_records-kept fs text mac' serial' later _ (
        append_csv_record-found fs text time mac serial text.ok print mac' serial' day files
          (plain_row-found time mac serial print mac' serial' ft fm fn fp nh same) r ok)
