-- ===== src/MainWindow/SettingsFile.antt =====
-- src/ui/sn_mode_settings.cpp: `SnModeSettings::saveToFile` and `loadFromFile`. QJsonObject and
-- QJsonDocument are parameters.
pub mod RoundTrip
use usb_hid_tool.Prelude.{ℕ, Bool, true, false, List, [], ◌∷◌, Option, none, some}
use usb_hid_tool.MainWindow.Settings.{SnModeSettings}

-- A JSON value: a string, a Boolean, or anything else.
pub data JsonValue (T : Type 0) : Type 0 where
  text : T → JsonValue T
  truth : Bool → JsonValue T
  other : JsonValue T

-- `QJsonObject` over keys that are numbers, and the document that a file holds; `none` is a document
-- that is no object.
pub record Json (T O F : Type 0) : Type 0 where
  pub no_members : O
  pub insert : O → ℕ → JsonValue T → O
  pub value : O → ℕ → JsonValue T
  pub to_json : O → F
  pub from_json : F → Option O

abbrev json_string : {T : Type 0} → JsonValue T → T → T
json_string (text t) fallback = t
json_string (truth b) fallback = fallback
json_string other fallback = fallback

abbrev json_bool : {T : Type 0} → JsonValue T → Bool → Bool
json_bool (truth b) fallback = b
json_bool (text t) fallback = fallback
json_bool other fallback = fallback

-- The file: missing, closed to the program, or its content.
pub data SettingsFile (F : Type 0) : Type 0 where
  missing unreadable : SettingsFile F
  content : F → SettingsFile F

pub data Loaded (T : Type 0) : Type 0 where
  cannot_read invalid_json : Loaded T
  settings : SnModeSettings T → Loaded T

-- The members of the object, in the order in which they are inserted. The keys are numbered in that order.
unfoldable pub members : {T : Type 0} → SnModeSettings T → List (ℕ × JsonValue T)
members s =
    (0, text s.sn_prefix)
    ∷ (1, text s.sn_start)
    ∷ (2, text s.sn_width)
    ∷ (3, text s.sn_poll_ms)
    ∷ (4, text s.sn_template)
    ∷ (5, truth s.use_plant)
    ∷ (6, truth s.use_manufacturer)
    ∷ (7, truth s.use_product)
    ∷ (8, truth s.use_month)
    ∷ (9, truth s.use_year)
    ∷ (10, truth s.prevent_duplicate)
    ∷ (11, truth s.enable_print)
    ∷ (12, text s.plant_code)
    ∷ (13, text s.manufacturer_code)
    ∷ (14, text s.product_code)
    ∷ (15, text s.month_code)
    ∷ (16, text s.year_code)
    ∷ (17, text s.printer_ip)
    ∷ (18, text s.printer_port)
    ∷ (19, text s.print_template)
    ∷ []

module _ {T O F : Type 0} (json : Json T O F) where
  unfoldable pub insert_all : O → List (ℕ × JsonValue T) → O
  insert_all o [] = o
  insert_all o ((key, v) ∷ ms) = insert_all (json.insert o key v) ms

  unfoldable pub read_object : O → SnModeSettings T → SnModeSettings T
  read_object o d = record {
    sn_prefix = json_string (json.value o 0) d.sn_prefix;
    sn_start = json_string (json.value o 1) d.sn_start;
    sn_width = json_string (json.value o 2) d.sn_width;
    sn_poll_ms = json_string (json.value o 3) d.sn_poll_ms;
    sn_template = json_string (json.value o 4) d.sn_template;
    use_plant = json_bool (json.value o 5) d.use_plant;
    use_manufacturer = json_bool (json.value o 6) d.use_manufacturer;
    use_product = json_bool (json.value o 7) d.use_product;
    use_month = json_bool (json.value o 8) d.use_month;
    use_year = json_bool (json.value o 9) d.use_year;
    prevent_duplicate = json_bool (json.value o 10) d.prevent_duplicate;
    enable_print = json_bool (json.value o 11) d.enable_print;
    plant_code = json_string (json.value o 12) d.plant_code;
    manufacturer_code = json_string (json.value o 13) d.manufacturer_code;
    product_code = json_string (json.value o 14) d.product_code;
    month_code = json_string (json.value o 15) d.month_code;
    year_code = json_string (json.value o 16) d.year_code;
    printer_ip = json_string (json.value o 17) d.printer_ip;
    printer_port = json_string (json.value o 18) d.printer_port;
    print_template = json_string (json.value o 19) d.print_template;
  }

  unfoldable pub load_from_file : SnModeSettings T → SettingsFile F → Loaded T
  load_from_file defaults missing = settings defaults
  load_from_file defaults unreadable = cannot_read
  load_from_file defaults (content f) = elim (json.from_json f) [
    | none ↦ invalid_json
    | some o ↦ settings (read_object o defaults)
  ]

  -- Whether the file can be opened, and committed; a file that is not committed stays as it was.
  unfoldable pub save_to_file :
      Bool → Bool → SnModeSettings T → SettingsFile F → Bool × SettingsFile F
  save_to_file false commits s file = (false, file)
  save_to_file true false s file = (false, file)
  save_to_file true true s file =
      (true, content (json.to_json (insert_all json.no_members (members s))))
