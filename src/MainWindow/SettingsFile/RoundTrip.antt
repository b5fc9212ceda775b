-- ===== src/MainWindow/SettingsFile/RoundTrip.antt =====
-- Settings that are saved are loaded again.
use usb_hid_tool.Prelude.{
  ℕ, ◌≡◌, refl, ◌∙◌, ap, Bool, true, false, ◌&&◌, List, [], ◌∷◌, some, ◌==◌, if◌then◌else◌,
}
use usb_hid_tool.MainWindow.Settings.{SnModeSettings}
use usb_hid_tool.MainWindow.SettingsFile.{
  JsonValue, Json, SettingsFile, settings, members, insert_all, read_object, load_from_file,
  save_to_file,
}

module _ {T O F : Type 0} (json : Json T O F) where
  -- An object is a map, and a document that is printed is read back as it was.
  pub record IsJson : Type 0 where
    pub value_insert :
        (o : O) (k k' : ℕ) (v : JsonValue T)
        → json.value (json.insert o k v) k' ≡ (if k == k' then v else json.value o k')
    pub from_json-to_json : (o : O) → json.from_json (json.to_json o) ≡ some o

  -- The value of the last member with a key.
  abbrev member : List (ℕ × JsonValue T) → ℕ → JsonValue T → JsonValue T
  member [] k v = v
  member ((k', v') ∷ ms) k v = member ms k (if k' == k then v' else v)

  value-insert_all :
      (ms : List (ℕ × JsonValue T)) (o : O) (k : ℕ)
      → IsJson
      → json.value (insert_all json o ms) k ≡ member ms k (json.value o k)
  unfolding insert_all
  value-insert_all [] o k j = refl
  value-insert_all ((k', v') ∷ ms) o k j =
      value-insert_all ms (json.insert o k' v') k j ∙ ap (member ms k) (j.value_insert o k' k v')

  read_object-members :
      (s d : SnModeSettings T)
      → IsJson
      → read_object json (insert_all json json.no_members (members s)) d ≡ s
  unfolding read_object members
  read_object-members s d j =
      rw
        (
          v 0,
          v 1,
          v 2,
          v 3,
          v 4,
          v 5,
          v 6,
          v 7,
          v 8,
          v 9,
          v 10,
          v 11,
          v 12,
          v 13,
          v 14,
          v 15,
          v 16,
          v 17,
          v 18,
          v 19,
        )
        refl
    where
      v :
          (k : ℕ)
          → json.value (insert_all json json.no_members (members s)) k
            ≡ member (members s) k (json.value json.no_members k)
      v k = value-insert_all (members s) json.no_members k j

  -- Where an object is a map from its keys and a printed document is read back, settings that are
  -- saved are loaded again as they were, whatever file there was and whatever the defaults are.
  -- Where the file cannot be opened or committed, it stays as it was.
  pub load_from_file-save_to_file :
      (opens commits : Bool) (s d : SnModeSettings T) (file : SettingsFile F)
      → IsJson
      → (save_to_file json opens commits s file).0 ≡ (opens && commits)
        × (if opens && commits
            then load_from_file json d (save_to_file json opens commits s file).1 ≡ settings s
            else (save_to_file json opens commits s file).1 ≡ file)
  unfolding save_to_file load_from_file
  load_from_file-save_to_file true true s d file j = (
    refl,
    rw (j.from_json-to_json (insert_all json json.no_members (members s)))
        (ap settings (read_object-members s d j)),
  )
  load_from_file-save_to_file true false s d file j = (refl, refl)
  load_from_file-save_to_file false commits s d file j = (refl, refl)
