-- ===== src/Windows/Transfers.antt =====
-- `hid_write`, `hid_read_timeout`, `hid_read`, `hid_read_error`, `hid_set_nonblocking` and the four
-- report functions of hidapi/windows/hid.c. Windows is a parameter: a call takes a state of the world
-- and answers. `HANDLE`s and events are part of the world; the text of an error is left out.
pub mod Contract
pub mod Pending
use usb_hid_tool.Prelude.{
  ℕ, zero, suc, ◌+◌, ◌-◌, min, Bool, true, false, not, ◌&&◌, ◌||◌, List, [], ◌∷◌, ◌++◌, Option,
  none, some, ltb, leb, ◌==◌, if◌then◌else◌, length, take, drop,
}
use usb_hid_tool.Prelude.Int.{ℤ, pos, negsuc, minus_one}
use usb_hid_tool.Run.{Run, done, ◌>>=◌, read}

abbrev pub Bytes : Type 0
Bytes = List ℕ

-- The call that an error message names, with a Windows error code (`winapi`) or without (`named`).
pub data Operation : Type 0 where
  write_file write_wait write_result read_file read_result : Operation
  set_feature set_output_report device_control control_result : Operation

pub data Error : Type 0 where
  zero_buffer no_memory : Error
  winapi named : Operation → Error

-- A request starts: it fails, it is pending (ERROR_IO_PENDING), or it is done at once.
pub data Start (A : Type 0) : Type 0 where
  failed pending : Start A
  finished : A → Start A

-- IOCTL_HID_GET_FEATURE, IOCTL_HID_GET_INPUT_REPORT
pub data Control : Type 0 where
  get_feature get_input_report : Control

pub record Windows (W : Type 0) : Type 0 where
  -- `malloc` has memory
  pub malloc : W → Bool × W
  pub write_file : W → Bytes → Start ℕ × W
  -- `WaitForSingleObject` on the event of a write or of a read is WAIT_OBJECT_0; -1 is INFINITE
  pub wait_write : W → Bool × W
  pub wait_read : W → ℤ → Bool × W
  -- `GetOverlappedResult`, false as `none`: the number of bytes written, or the bytes read
  pub write_overlapped : W → Option ℕ × W
  pub read_file : W → ℕ → Start Bytes × W
  pub read_overlapped : W → Option Bytes × W
  pub cancel_io : W → W
  pub set_feature : W → Bytes → Bool × W
  pub set_output_report : W → Bytes → Bool × W
  -- `DeviceIoControl` over a buffer fails at once or not; then the number of bytes and the buffer
  pub device_control : W → Control → Bytes → Bool × W
  pub control_overlapped : W → Bytes → Option (ℕ × Bytes) × W

-- The fields of `struct hid_device_` that transfers use. A buffer that is not allocated is `none`.
pub record Device : Type 0 where
  pub blocking : Bool
  pub output_report_length : ℕ
  pub write_buf : Option Bytes
  pub input_report_length : ℕ
  pub feature_report_length : ℕ
  pub feature_buf : Option Bytes
  pub last_error : Option Error
  pub last_read_error : Option Error
  pub read_pending : Bool
  pub read_buf : Bytes

-- What a function returns: the result, the caller's buffer or the bytes stored in it, the device.
pub record Outcome (W : Type 0) : Type 0 where
  pub result : ℤ
  pub stored : Bytes
  pub dev : Device
  pub world : W

abbrev pub outcome : {W : Type 0} → ℤ → Bytes → Device → W → Outcome W
outcome r bytes dev w = record { result = r; stored = bytes; dev = dev; world = w }

abbrev pub with_error : Device → Option Error → Device
with_error dev e = record dev { last_error = e }

abbrev pub zeros : ℕ → Bytes
zeros zero = []
zeros (suc n) = 0 ∷ zeros n

-- `memcpy(buf, data, length); memset(buf + length, 0, size - length)`
abbrev pub padded : Bytes → ℕ → Bytes
padded bytes size = bytes ++ zeros (size - length bytes)

-- `memcpy` of the bytes read over the buffer.
abbrev pub overlay : Bytes → Bytes → Bytes
overlay bytes buf = bytes ++ drop (length bytes) buf

unfoldable pub hid_set_nonblocking : Device → Bool → Device × ℤ
hid_set_nonblocking dev nonblock = (record dev { blocking = not nonblock }, pos 0)

-- `none` is the text "Success".
unfoldable pub hid_read_error : Device → Option Error
hid_read_error dev = dev.last_read_error

-- A buffer to send, or none when memory is short.
pub record Buffer (W : Type 0) : Type 0 where
  pub bytes : Option Bytes
  pub dev : Device
  pub world : W

module _ {W : Type 0} (os : Windows W) where
  -- The buffer that `hid_write` and `hid_send_output_report` send: the caller's, or `write_buf`.
  unfoldable pub output_buffer : Device → Bytes → W → Buffer W
  output_buffer dev bytes w =
      if leb dev.output_report_length (length bytes)
      then record { bytes = some bytes; dev = dev; world = w }
      else (let full : Bytes = padded bytes dev.output_report_length in
          let cached : Device = record dev { write_buf = some full } in
          elim dev.write_buf [
            | some _ ↦ record { bytes = some full; dev = cached; world = w }
            | none ↦
                let (got, w') = os.malloc w in
                if got
                then record { bytes = some full; dev = cached; world = w' }
                else record { bytes = none; dev = with_error dev (some no_memory); world = w' }
          ])

  -- The same for `hid_send_feature_report` and `feature_buf`.
  unfoldable pub feature_buffer : Device → Bytes → W → Buffer W
  feature_buffer dev bytes w =
      if leb dev.feature_report_length (length bytes)
      then record { bytes = some bytes; dev = dev; world = w }
      else (let full : Bytes = padded bytes dev.feature_report_length in
          let cached : Device = record dev { feature_buf = some full } in
          elim dev.feature_buf [
            | some _ ↦ record { bytes = some full; dev = cached; world = w }
            | none ↦
                let (got, w') = os.malloc w in
                if got
                then record { bytes = some full; dev = cached; world = w' }
                else record { bytes = none; dev = with_error dev (some no_memory); world = w' }
          ])

  -- The end of an overlapped write.
  unfoldable pub finish_write : Device → Bytes → W → Outcome W
  finish_write dev bytes w =
      let (signalled, w') = os.wait_write w in
      if signalled
      then (let (written, w'') = os.write_overlapped w' in
          elim written [
            | none ↦ outcome minus_one bytes (with_error dev (some (winapi write_result))) w''
            | some n ↦ outcome (pos n) bytes dev w''
          ])
      else outcome minus_one bytes (with_error dev (some (winapi write_wait))) w'

  -- `WriteFile` and what follows it.
  unfoldable pub write_bytes : Device → Bytes → Bytes → W → Outcome W
  write_bytes dev bytes full w =
      let (start, w') = os.write_file w full in
      elim start [
        | failed ↦ outcome minus_one bytes (with_error dev (some (winapi write_file))) w'
        | pending ↦ finish_write dev bytes w'
        | finished n ↦ outcome (pos n) bytes dev w'
      ]

  -- What follows the choice of the buffer.
  unfoldable pub write_buffer : Bytes → Buffer W → Outcome W
  write_buffer bytes buf = elim buf.bytes [
    | none ↦ outcome minus_one bytes buf.dev buf.world
    | some full ↦ write_bytes buf.dev bytes full buf.world
  ]

  unfoldable pub hid_write : Device → Option Bytes → W → Outcome W
  hid_write dev none w = outcome minus_one [] (with_error dev (some zero_buffer)) w
  hid_write dev (some []) w = outcome minus_one [] (with_error dev (some zero_buffer)) w
  hid_write dev (some (b ∷ bs)) w =
      write_buffer (b ∷ bs) (output_buffer (with_error dev none) (b ∷ bs) w)

  -- The copy out of `read_buf` of a read of `n` bytes, without a report number 0.
  unfoldable pub deliver : Device → ℕ → ℕ → W → Run (Outcome W)
  deliver dev zero size w = done (outcome (pos 0) [] dev w)
  deliver dev (suc n) size w = do
    first ← read dev.read_buf 0
    if first == 0
        then done (outcome (pos (min n size)) (take (min n size) (drop 1 dev.read_buf)) dev w)
        else done (outcome (pos (min (suc n) size)) (take (min (suc n) size) dev.read_buf) dev w)

  -- The bytes of a finished read are in `read_buf`.
  unfoldable pub complete_read : Device → Bytes → ℕ → W → Run (Outcome W)
  complete_read dev bytes size w =
      deliver (record dev { read_pending = false; read_buf = overlay bytes dev.read_buf })
        (length bytes) size w

  -- The wait for an overlapped read; -1 and all other negative times wait without end.
  unfoldable pub await_read : Device → ℕ → ℤ → W → Run (Outcome W)
  await_read dev size ms w =
      let (signalled, w') = os.wait_read w ms in
      if signalled
      then (let (bytes, w'') = os.read_overlapped w' in
          elim bytes [
            | none ↦ done (
                outcome minus_one []
                  (record dev { read_pending = false; last_read_error = some (winapi read_result) })
                  w'')
            | some bytes ↦ complete_read dev bytes size w''
          ])
      else done (outcome (pos 0) [] dev w')

  unfoldable pub start_read : Device → ℕ → ℤ → W → Run (Outcome W)
  start_read dev size ms w =
      let cleared : Device = record dev {
        read_pending = true;
        read_buf = zeros dev.input_report_length;
      } in
      let (start, w') = os.read_file w dev.input_report_length in
      elim start [
        | failed ↦ done (
            outcome minus_one []
              (record cleared { read_pending = false; last_read_error = some (winapi read_file) })
              (os.cancel_io w'))
        | pending ↦ await_read cleared size ms w'
        | finished bytes ↦ complete_read cleared bytes size w'
      ]

  -- `buffer` says that `data` is not NULL.
  unfoldable pub hid_read_timeout : Device → Bool → ℕ → ℤ → W → Run (Outcome W)
  hid_read_timeout dev buffer size ms w =
      if not buffer || size == 0
      then done (outcome minus_one [] (record dev { last_read_error = some zero_buffer }) w)
      else (let fresh : Device = record dev { last_read_error = none } in
          if dev.read_pending then await_read fresh size ms w else start_read fresh size ms w)

  unfoldable pub hid_read : Device → Bool → ℕ → W → Run (Outcome W)
  hid_read dev buffer size w =
      hid_read_timeout dev buffer size (if dev.blocking then minus_one else pos 0) w
