-- ===== src/Race/Command.antt =====
-- src/core/race_command.cpp: `RaceCommand::parseHexString` and `RaceCommand::toHexString`. QString is
-- a parameter: the tokens of a text, `toInt` to the base 16, and the text of a byte.
pub mod RoundTrip
use usb_hid_tool.Prelude.{
  ℕ, Bool, true, false, ◌||◌, List, [], ◌∷◌, ◌++◌, Option, none, some, ltb, if◌then◌else◌, map,
}
use usb_hid_tool.Prelude.Int.{ℤ, pos, negsuc, is_neg, to_nat}

abbrev pub Bytes : Type 0
Bytes = List ℕ

pub record Qt (T : Type 0) : Type 0 where
  -- `trimmed().replace(QRegularExpression("[,;\\s]+"), " ")`
  pub cleaned : T → T
  pub is_empty : T → Bool
  -- `split(' ', Qt::SkipEmptyParts)` and `join(' ')`
  pub split : T → List T
  pub join : List T → T
  -- `toInt(&ok, 16)`; `none` is `ok` false
  pub to_int : T → Option ℤ
  -- `QString("%1").arg(b, 2, 16, QChar('0')).toUpper()`
  pub two_digits : ℕ → T

pub data CommandError (T : Type 0) : Type 0 where
  empty_command : CommandError T
  invalid_byte : T → CommandError T

-- `errMsg` with false, or `out` with true.
pub data ParsedCommand (T : Type 0) : Type 0 where
  failed : CommandError T → ParsedCommand T
  parsed : Bytes → ParsedCommand T

abbrev in_range : ℤ → Bool
in_range value = if is_neg value then false else ltb (to_nat value) 256

module _ {T : Type 0} (qt : Qt T) where
  -- The loop over the tokens.
  unfoldable pub parse_tokens : List T → Bytes → ParsedCommand T
  parse_tokens [] bytes = parsed bytes
  parse_tokens (token ∷ tokens) bytes = elim (qt.to_int token) [
    | none ↦ failed (invalid_byte token)
    | some value ↦
        if in_range value
        then parse_tokens tokens (bytes ++ (to_nat value ∷ []))
        else failed (invalid_byte token)
  ]

  unfoldable pub parse_hex_string : T → ParsedCommand T
  parse_hex_string text =
      if qt.is_empty (qt.cleaned text)
      then failed empty_command
      else parse_tokens (qt.split (qt.cleaned text)) []

  unfoldable pub to_hex_string : Bytes → T
  to_hex_string bytes = qt.join (map qt.two_digits bytes)
