-- ===== src/MainWindow/Csv/Appends.antt =====
-- A duplicate that is found is found behind further records too: no older line is lost.
use usb_hid_tool.Prelude.{
  ℕ, ◌≡◌, inl, inr, Bool, true, false, List, [], ◌∷◌, ◌++◌, arith, Bool-cases, Option-cases,
}
use usb_hid_tool.MainWindow.Csv.{
  CsvText, CsvName, CsvFile, FileSystem, find_file, current_csv_file_path, append_line, csv_row,
  append_csv_record, has_duplicate_line, is_duplicate_record,
}

module _ {T : Type 0} (text : CsvText T) (mac serial line : T) where
  has_duplicate_line-kept :
      (first : Bool) (lines : List T)
      → has_duplicate_line text first mac serial lines ≡ true
      → has_duplicate_line text first mac serial (lines ++ (line ∷ [])) ≡ true
  unfolding has_duplicate_line
  has_duplicate_line-kept first [] h = absurd (ground (arith, h))
  has_duplicate_line-kept first (l ∷ lines) h =
      ground (arith, h, has_duplicate_line-kept first lines, has_duplicate_line-kept false lines)

module _ {T : Type 0} (fs : FileSystem T) (text : CsvText T) (mac serial : T) where
  append_line-kept :
      (name : CsvName) (line : T) (files : List (CsvFile T))
      → is_duplicate_record fs text mac serial files ≡ true
      → is_duplicate_record fs text mac serial (append_line fs name line files) ≡ true
  unfolding is_duplicate_record append_line
  append_line-kept name line [] h = h
  append_line-kept name line (file ∷ files) h = ground (
    arith,
    h,
    has_duplicate_line-kept text mac serial line true file.content,
    append_line-kept name line files,
  )

  new_file-kept :
      (file : CsvFile T) (files : List (CsvFile T))
      → is_duplicate_record fs text mac serial files ≡ true
      → is_duplicate_record fs text mac serial (file ∷ files) ≡ true
  unfolding is_duplicate_record
  new_file-kept file files h = rw h (ground arith)

  -- A duplicate that was found is found behind any further record.
  append_csv_record-kept :
      (day : ℕ) (time mac' serial' burn print : T) (files : List (CsvFile T))
      → is_duplicate_record fs text mac serial files ≡ true
      → is_duplicate_record fs text mac serial
          (append_csv_record fs text day time mac' serial' burn print files).1
        ≡ true
  unfolding append_csv_record
  append_csv_record-kept day time mac' serial' burn print files h =
      let name : CsvName = current_csv_file_path fs day files in
      elim (Bool-cases (fs.can_append name)) [
        | inr a ↦ rw a h
        | inl a ↦ elim (Option-cases (find_file name files)) [
          | inl n ↦ rw (a, n) (new_file-kept _ files h)
          | inr n ↦
              rw (a, n.1)
                (append_line-kept name (csv_row text time mac' serial' burn print) files h)
        ]
      ]

-- A call of `appendCsvRecord`.
pub record CsvRecord (T : Type 0) : Type 0 where
  pub day : ℕ
  pub time : T
  pub mac : T
  pub serial : T
  pub burn : T
  pub print : T

-- The files behind a number of calls.
abbrev pub appended_records :
    {T : Type 0}
    → FileSystem T
    → CsvText T
    → List (CsvRecord T)
    → List (CsvFile T)
    → List (CsvFile T)
appended_records fs text [] files = files
appended_records fs text (r ∷ rs) files =
    appended_records fs text rs
      (append_csv_record fs text r.day r.time r.mac r.serial r.burn r.print files).1

pub appended_records-kept :
    {T : Type 0} (fs : FileSystem T) (text : CsvText T) (mac serial : T) (rs : List (CsvRecord T))
    (files : List (CsvFile T))
    → is_duplicate_record fs text mac serial files ≡ true
    → is_duplicate_record fs text mac serial (appended_records fs text rs files) ≡ true
appended_records-kept fs text mac serial [] files h = h
appended_records-kept fs text mac serial (r ∷ rs) files h =
    appended_records-kept fs text mac serial rs _
      (append_csv_record-kept fs text mac serial r.day r.time r.mac r.serial r.burn r.print files h)
