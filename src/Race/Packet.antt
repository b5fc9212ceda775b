-- ===== src/Race/Packet.antt =====
-- src/core/race_packet.cpp: `RacePacket::buildOutReport` and `RacePacket::parseInReport`. A QByteArray
-- is the list of its bytes as `quint8`; an index outside of it is a fault. `reportSize` is not
-- negative; below 3 the first writes are faults, so that `reportSize - 3` is not below 0 afterwards.
pub mod Build
pub mod Parse
pub mod RoundTrip
use usb_hid_tool.Prelude.{
  ℕ, zero, suc, ◌+◌, ◌-◌, ◌%◌, min, Bool, true, false, not, List, [], ◌∷◌, Option, none, some, ltb,
  ◌==◌, if◌then◌else◌, length, take, drop,
}
use usb_hid_tool.Run.{Run, done, fault, ◌>>=◌, read}

abbrev pub Bytes : Type 0
Bytes = List ℕ

pub record HidReportConfig : Type 0 where
  pub out_report_id : ℕ
  pub in_report_id : ℕ
  pub report_size : ℕ

abbrev default_config : HidReportConfig
default_config = record { out_report_id = 0x06; in_report_id = 0x07; report_size = 62 }

-- `QByteArray(size, '\0')`
abbrev pub filled : ℕ → Bytes
filled zero = []
filled (suc n) = 0 ∷ filled n

-- `out[i] = b`
abbrev pub write : Bytes → ℕ → ℕ → Run Bytes
write [] i b = fault
write (x ∷ xs) zero b = done (b ∷ xs)
write (x ∷ xs) (suc i) b = write xs i b >>= λ ys. done (x ∷ ys)

-- The loop that copies the command: `left` rounds from `i` on.
unfoldable pub copy_command : Bytes → ℕ → ℕ → Bytes → Run Bytes
copy_command cmd i zero out = done out
copy_command cmd i (suc left) out = do
  b ← read cmd i
  out' ← write out (3 + i) b
  copy_command cmd (suc i) left out'

-- `payloadLen`: the target and the command, as far as they fit.
abbrev pub payload_len : Bytes → HidReportConfig → ℕ
payload_len cmd cfg = min (length cmd + 1) (cfg.report_size - 3)

unfoldable pub build_out_report : Bytes → ℕ → HidReportConfig → Run Bytes
build_out_report cmd target cfg = do
  out ← write (filled cfg.report_size) 0 cfg.out_report_id
  out' ← write out 1 (payload_len cmd cfg % 256)
  out'' ← write out' 2 target
  copy_command cmd 0 (payload_len cmd cfg - 1) out''

pub data ParseError : Type 0 where
  too_short unexpected_id invalid_length : ParseError

-- What `parseInReport` returns and stores; `no_data` is false with an empty error text.
pub data Parsed : Type 0 where
  accepted : Bytes → ℕ → Parsed
  no_data : Parsed
  refused : ParseError → Parsed

unfoldable pub parse_in_report : Bytes → HidReportConfig → Run Parsed
parse_in_report raw cfg = if ltb (length raw) cfg.report_size then done (refused too_short) else (do
  id ← read raw 0
  if not (id == cfg.in_report_id) then done (refused unexpected_id) else (do
    valid_len ← read raw 1
    if valid_len == 0
        then done no_data
        else if ltb (cfg.report_size - 3) valid_len
        then done (refused invalid_length)
        else (do target ← read raw 2; done (accepted (take valid_len (drop 3 raw)) target))))
