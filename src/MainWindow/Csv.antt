-- ===== src/MainWindow/Csv.antt =====
-- src/ui/main_window.cpp: the CSV files of written serial numbers. QString, and whether a file can be
-- opened, are parameters. A row that is written is one line: its texts hold no line break.
pub mod Appends
pub mod Current
pub mod Duplicates
use usb_hid_tool.Prelude.{
  ℕ, zero, suc, ◌+◌, ◌*◌, Bool, true, false, not, ◌&&◌, ◌||◌, List, [], ◌∷◌, ◌++◌, Option, none,
  some, ltb, ◌==◌, if◌then◌else◌, length,
}

-- What the files use of QString, with its literals.
pub record CsvText (T : Type 0) : Type 0 where
  pub trimmed : T → T
  pub is_empty : T → Bool
  -- `split(',')` and the texts of a row with "," between them
  pub split : T → List T
  pub row : List T → T
  -- `replace(',', '_')`
  pub safe : T → T
  -- `compare(_, Qt::CaseInsensitive) == 0`, and `==`
  pub same_letters : T → T → Bool
  pub same : T → T → Bool
  -- the first line of a new file, and `startsWith("timestamp,mac,serial_number")`
  pub header : T
  pub is_header : T → Bool
  pub ok : T

-- `mac_sn_%1_%2.csv`, of a day and an index.
pub record CsvName : Type 0 where
  pub day : ℕ
  pub idx : ℕ

pub record CsvFile (T : Type 0) : Type 0 where
  pub name : CsvName
  pub content : List T

-- What the file system answers: whether a file can be opened to read or to append, and its size.
pub record FileSystem (T : Type 0) : Type 0 where
  pub can_read : CsvName → Bool
  pub can_append : CsvName → Bool
  pub size : CsvFile T → ℕ

abbrev pub has_name : {T : Type 0} → CsvName → CsvFile T → Bool
has_name name file = file.name.day == name.day && file.name.idx == name.idx

unfoldable pub find_file : {T : Type 0} → CsvName → List (CsvFile T) → Option (CsvFile T)
find_file name [] = none
find_file name (file ∷ files) = if has_name name file then some file else find_file name files

abbrev csv_max_size : ℕ
csv_max_size = 5 * 1024 * 1024

module _ {T : Type 0} (text : CsvText T) where
  abbrev pub csv_row : T → T → T → T → T → T
  csv_row time mac serial burn print =
      text.row (time ∷ text.safe mac ∷ text.safe serial ∷ burn ∷ print ∷ [])

  -- The test of the columns of a line.
  unfoldable pub is_duplicate_row : T → T → List T → Bool
  is_duplicate_row mac serial (time ∷ old_mac ∷ old_sn ∷ old_burn ∷ old_print ∷ cols) =
      text.same (text.trimmed old_burn) text.ok
      && (text.same_letters (text.trimmed old_mac) mac || text.same (text.trimmed old_sn) serial)
  is_duplicate_row mac serial _ = false

  -- The loop over the lines of a file, with `firstLine`.
  unfoldable pub has_duplicate_line : Bool → T → T → List T → Bool
  has_duplicate_line first mac serial [] = false
  has_duplicate_line first mac serial (raw ∷ lines) =
      let line = text.trimmed raw in
      let same_first = has_duplicate_line first mac serial lines in
      let rest = has_duplicate_line false mac serial lines in
      if text.is_empty line
      then same_first
      else if first && text.is_header line
      then rest
      else if is_duplicate_row mac serial (text.split line)
      then true
      else rest

module _ {T : Type 0} (fs : FileSystem T) where
  abbrev pub is_usable : Option (CsvFile T) → Bool
  is_usable none = true
  is_usable (some file) = ltb (fs.size file) csv_max_size

  -- The loop of `currentCsvFilePath` from an index on, with the indices that are left.
  unfoldable pub csv_index_from : ℕ → ℕ → ℕ → List (CsvFile T) → ℕ
  csv_index_from zero idx day files = 999
  csv_index_from (suc left) idx day files =
      let later = csv_index_from left (idx + 1) day files in
      if is_usable (find_file (record { day = day; idx = idx }) files) then idx else later

  unfoldable pub current_csv_file_path : ℕ → List (CsvFile T) → CsvName
  current_csv_file_path day files = record { day = day; idx = csv_index_from 999 1 day files }

  -- A line at the end of a file that is there.
  unfoldable pub append_line : CsvName → T → List (CsvFile T) → List (CsvFile T)
  append_line name line [] = []
  append_line name line (file ∷ files) =
      if has_name name file
      then record file { content = file.content ++ (line ∷ []) } ∷ files
      else file ∷ append_line name line files

  module _ (text : CsvText T) where
    -- The files, and whether the file could be opened.
    unfoldable pub append_csv_record :
        ℕ → T → T → T → T → T → List (CsvFile T) → Bool × List (CsvFile T)
    append_csv_record day time mac serial burn print files =
        let name = current_csv_file_path day files in
        if not (fs.can_append name) then (false, files) else elim (find_file name files) [
          | none ↦ (
            true,
            record {
              name = name;
              content = text.header ∷ csv_row text time mac serial burn print ∷ [];
            }
                ∷ files,
          )
          | some _ ↦ (true, append_line name (csv_row text time mac serial burn print) files)
        ]

    unfoldable pub is_duplicate_record : T → T → List (CsvFile T) → Bool
    is_duplicate_record mac serial [] = false
    is_duplicate_record mac serial (file ∷ files) =
        let rest = is_duplicate_record mac serial files in
        if not (fs.can_read file.name)
        then rest
        else if has_duplicate_line text true mac serial file.content
        then true
        else rest
