-- ===== src/MainWindow/Settings.antt =====
-- src/ui/main_window.cpp: the serial numbers, the range they start from, and the fields of the
-- window. QString is a parameter.
pub mod Serial
use usb_hid_tool.Prelude.{ℕ, ◌%◌, ◌^◌, Bool, not, Option, none, some, ltb, ◌==◌, if◌then◌else◌}
use usb_hid_tool.Prelude.Int.{ℤ, pos, negsuc}
use usb_hid_tool.Race.Packet.{HidReportConfig}

-- What the serial numbers use of QString.
pub record SerialText (T : Type 0) : Type 0 where
  -- `QStringLiteral("%1").arg(value, width, 10, QChar('0'))`
  pub padded : ℕ → ℕ → T
  pub size : T → ℕ
  pub is_empty : T → Bool
  pub trimmed : T → T
  pub append : T → T → T
  pub to_u_long_long : T → Option ℕ
  pub to_int : T → Option ℤ

-- The fields of `SnModeSettings` that the window uses.
pub record SnModeSettings (T : Type 0) : Type 0 where
  pub sn_prefix : T
  pub sn_start : T
  pub sn_width : T
  pub sn_poll_ms : T
  pub sn_template : T
  pub use_plant : Bool
  pub use_manufacturer : Bool
  pub use_product : Bool
  pub use_month : Bool
  pub use_year : Bool
  pub prevent_duplicate : Bool
  pub enable_print : Bool
  pub plant_code : T
  pub manufacturer_code : T
  pub product_code : T
  pub month_code : T
  pub year_code : T
  pub printer_ip : T
  pub printer_port : T
  pub print_template : T

module _ {T : Type 0} (text : SerialText T) (sn_mode : SnModeSettings T) where
  abbrev append_if : Bool → T → T → T
  append_if b code result = if b then text.append result code else result

  -- `none` is the error "Serial width overflow."
  unfoldable pub build_serial_string : ℕ → ℕ → Option T
  build_serial_string serial_value width =
      let serial_num = text.padded serial_value width in
      if not (text.size serial_num == width)
      then none
      else (let result = text.trimmed sn_mode.sn_prefix in
          let result = append_if sn_mode.use_plant sn_mode.plant_code result in
          let result = append_if sn_mode.use_manufacturer sn_mode.manufacturer_code result in
          let result = append_if sn_mode.use_product sn_mode.product_code result in
          let result = text.append result serial_num in
          let result = append_if sn_mode.use_month sn_mode.month_code result in
          some (append_if sn_mode.use_year sn_mode.year_code result))

  -- The width, and the next serial number; `none` is an invalid start number or width.
  abbrev pub range_of : ℕ → Option ℕ → Option ℤ → Option (ℕ × ℕ)
  range_of next_serial none width = none
  range_of next_serial (some start) none = none
  range_of next_serial (some start) (some (negsuc n)) = none
  range_of next_serial (some start) (some (pos width)) =
      if width == 0
      then none
      else some (width, (if ltb next_serial start then start else next_serial))

  unfoldable pub validate_serial_range : ℕ → Option (ℕ × ℕ)
  validate_serial_range next_serial =
      range_of next_serial (text.to_u_long_long sn_mode.sn_start) (text.to_int sn_mode.sn_width)

-- The numbers that the edit fields hold: `toUShort` and `toUInt` to the base 16, `none` where `ok`
-- is false, and the target of the list.
pub record Form : Type 0 where
  pub vid : Option ℕ
  pub pid : Option ℕ
  pub out_report_id : Option ℕ
  pub in_report_id : Option ℕ
  pub current_target : ℕ

abbrev byte_of : Option ℕ → ℕ
byte_of none = 0
byte_of (some n) = n % 2 ^ 8

-- `cfg_` after `parseUsbConfig`, which sets both ids before it tests them.
unfoldable pub parsed_config : Form → HidReportConfig → HidReportConfig
parsed_config form cfg = record cfg {
  out_report_id = byte_of form.out_report_id;
  in_report_id = byte_of form.in_report_id;
}

-- The vendor and product id, unless one of the fields is no number.
unfoldable pub parse_usb_config : Form → Option (ℕ × ℕ)
parse_usb_config form = elim form.vid [
  | none ↦ none
  | some vid ↦ elim form.pid [
    | none ↦ none
    | some pid ↦ elim form.out_report_id [
      | none ↦ none
      | some _ ↦ elim form.in_report_id [ none ↦ none | some _ ↦ some (vid, pid) ]
    ]
  ]
]
