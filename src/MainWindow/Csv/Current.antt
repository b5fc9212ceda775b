-- ===== src/MainWindow/Csv/Current.antt =====
-- Where a record goes: behind the lines of the current file of the day.
use usb_hid_tool.Prelude.{
  ℕ, zero, suc, ◌+◌, ◌≤◌, ◌<◌, ◌≡◌, ◌⊎◌, refl, inl, inr, ◌∙◌, sym, ap, ap₂, true, false, List, [],
  ◌∷◌, ◌++◌, Option, none, some, arith, Bool-cases, Option-cases,
}
use usb_hid_tool.MainWindow.Csv.{
  CsvText, CsvName, CsvFile, FileSystem, has_name, find_file, csv_index_from, current_csv_file_path,
  append_line, is_usable, csv_row, append_csv_record,
}

-- The lines of a file, none of one that does not exist.
abbrev lines_of : {T : Type 0} → Option (CsvFile T) → List T
lines_of none = []
lines_of (some file) = file.content

-- The lines that a row adds: behind a new file's header.
abbrev added : {T : Type 0} → CsvText T → Option (CsvFile T) → T → List T
added text none row = text.header ∷ row ∷ []
added text (some file) row = row ∷ []

-- The file that a record of a day goes to: of that day, with an index from 1 to 999, and not full
-- unless it is the last.
pub record IsCurrent {T : Type 0} (fs : FileSystem T) (day : ℕ) (files : List (CsvFile T))
    (name : CsvName) : Type 0 where
  pub of_day : name.day ≡ day
  pub from_one : 1 ≤ name.idx
  pub up_to : name.idx ≤ 999
  pub has_room :
      (file : CsvFile T)
      → find_file name files ≡ some file
      → (fs.size file < 5242880) ⊎ (name.idx ≡ 999)

-- What appending a row does: nothing if the file cannot be opened; else the row stands behind the
-- lines of the file, which has its header if it is new, and every other file is as it was.
pub record IsAppended {T : Type 0} (fs : FileSystem T) (text : CsvText T) (day : ℕ) (row : T)
    (files files' : List (CsvFile T)) : Type 0 where
  pub name : CsvName
  pub current : IsCurrent fs day files name
  pub refused : fs.can_append name ≡ false → files' ≡ files
  pub one_more :
      fs.can_append name ≡ true
      → lines_of (find_file name files')
        ≡ lines_of (find_file name files) ++ added text (find_file name files) row
  pub others :
      (other : CsvName) → (other ≡ name → ⊥) → find_file other files' ≡ find_file other files

pub has_name-name :
    {T : Type 0} (name : CsvName) (file : CsvFile T) → has_name name file ≡ true → file.name ≡ name
has_name-name name file e = ap₂ named (ground arith) (ground arith)
  where
    named : ℕ → ℕ → CsvName
    named d i = record { day = d; idx = i }

csv_index_from-IsCurrent :
    {T : Type 0} (fs : FileSystem T) (left idx day : ℕ) (files : List (CsvFile T))
    → 1 ≤ idx
    → left + idx ≡ 1000
    → IsCurrent fs day files (record { day = day; idx = csv_index_from fs left idx day files })
unfolding csv_index_from
csv_index_from-IsCurrent fs zero idx day files h e = record {
  of_day = refl;
  from_one = omega arith;
  up_to = omega arith;
  has_room = λ file q. inr refl;
}
csv_index_from-IsCurrent fs (suc left) idx day files h e =
    let name : CsvName = record { day = day; idx = idx } in
    elim (Bool-cases (is_usable fs (find_file name files))) [
      | inl u ↦ rw u (record {
        of_day = refl;
        from_one = h;
        up_to = omega (arith, e);
        has_room = λ file q. inl (ground (arith, sym (ap (is_usable fs) q) ∙ u));
      })
      | inr u ↦
          rw u
            (csv_index_from-IsCurrent fs left (idx + 1) day files (omega arith) (omega (arith, e)))
    ]

find_file-here :
    {T : Type 0} (name : CsvName) (g : CsvFile T) (files : List (CsvFile T))
    → has_name name g ≡ true
    → some g ≡ find_file name (g ∷ files)
unfolding find_file
find_file-here name g files h = rw h refl

pub find_file-rest :
    {T : Type 0} (name : CsvName) (g file : CsvFile T) (files : List (CsvFile T))
    → has_name name g ≡ false
    → find_file name (g ∷ files) ≡ some file
    → find_file name files ≡ some file
unfolding find_file
find_file-rest name g file files h e = ground (arith, h, e)

module _ {T : Type 0} (fs : FileSystem T) (name : CsvName) (row : T) where
  append_line-lines_of :
      (files : List (CsvFile T)) (file : CsvFile T)
      → find_file name files ≡ some file
      → lines_of (find_file name (append_line fs name row files)) ≡ file.content ++ (row ∷ [])
  unfolding append_line find_file
  append_line-lines_of [] file e = absurd (ground (arith, e))
  append_line-lines_of (g ∷ files) file e = elim (Bool-cases (has_name name g)) [
    | inl h ↦
        let same : some g ≡ some file = find_file-here name g files h ∙ e in
        rw h (rw h (ap (λ o. lines_of o ++ (row ∷ [])) same))
    | inr h ↦ rw h (rw h (append_line-lines_of files file (find_file-rest name g file files h e)))
  ]

  append_line-others :
      (other : CsvName) (files : List (CsvFile T))
      → (other ≡ name → ⊥)
      → find_file other (append_line fs name row files) ≡ find_file other files
  unfolding append_line find_file
  append_line-others other [] n = refl
  append_line-others other (g ∷ files) n = elim (Bool-cases (has_name name g)) [
    | inr h ↦ rw (h, append_line-others other files n) refl
    | inl h ↦ elim (Bool-cases (has_name other g)) [
      | inl k ↦ absurd (n (sym (has_name-name other g k) ∙ has_name-name name g h))
      | inr k ↦ rw (h, k) refl
    ]
  ]

-- `appendCsvRecord` appends its row, and tells whether it could.
new_file-lines_of :
    {T : Type 0} (name : CsvName) (lines : List T) (files : List (CsvFile T))
    → lines_of (find_file name (record { name = name; content = lines } ∷ files)) ≡ lines
unfolding find_file
new_file-lines_of name lines files = ground arith

new_file-others :
    {T : Type 0} (name other : CsvName) (lines : List T) (files : List (CsvFile T))
    → (other ≡ name → ⊥)
    → find_file other (record { name = name; content = lines } ∷ files) ≡ find_file other files
unfolding find_file
new_file-others {T} name other lines files n =
    let file : CsvFile T = record { name = name; content = lines } in
    elim (Bool-cases (has_name other file)) [
      | inl k ↦ absurd (n (sym (has_name-name other file k)))
      | inr k ↦ rw k refl
    ]

module _ {T : Type 0} (fs : FileSystem T) (text : CsvText T) (day : ℕ)
    (time mac serial burn print : T) (files : List (CsvFile T)) where
  abbrev appended_row : T
  appended_row = csv_row text time mac serial burn print

  abbrev current_name : CsvName
  current_name = current_csv_file_path fs day files

  file_name-IsCurrent : IsCurrent fs day files current_name
  unfolding current_csv_file_path
  file_name-IsCurrent = csv_index_from-IsCurrent fs 999 1 day files (omega arith) (omega arith)

  pub append_csv_record-IsAppended :
      IsAppended fs text day appended_row files
        (append_csv_record fs text day time mac serial burn print files).1
  unfolding append_csv_record
  append_csv_record-IsAppended = elim (Bool-cases (fs.can_append current_name)) [
    | inr a ↦ rw a (record {
      name = current_name;
      current = file_name-IsCurrent;
      refused = λ q. refl;
      one_more = λ q. absurd (ground (arith, q, a));
      others = λ other n. refl;
    })
    | inl a ↦ elim (Option-cases (find_file current_name files)) [
      | inl k ↦
          rw (a, k)
            (record {
              name = current_name;
              current = file_name-IsCurrent;
              refused = λ q. absurd (ground (arith, q, a));
              one_more = λ q.
                  rw k (new_file-lines_of current_name (text.header ∷ appended_row ∷ []) files);
              others = λ other n.
                  new_file-others current_name other (text.header ∷ appended_row ∷ []) files n;
            })
      | inr (file, k) ↦
          rw (a, k)
            (record {
              name = current_name;
              current = file_name-IsCurrent;
              refused = λ q. absurd (ground (arith, q, a));
              one_more = λ q. rw k (append_line-lines_of fs current_name appended_row files file k);
              others = λ other n. append_line-others fs current_name appended_row other files n;
            })
    ]
  ]
