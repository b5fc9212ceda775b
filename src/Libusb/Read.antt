-- ===== src/Libusb/Read.antt =====
-- `hid_read_timeout`, `hid_read`, `hid_set_nonblocking` and `hid_read_error` of hidapi/libusb/hid.c.
-- While a reader waits the mutex is free and the read thread runs callbacks: each wait is the list of
-- the transfers that came in and the answer of the wait. Where the list of waits ends the reader
-- still waits, which is `spent`.
pub mod Waits
pub mod Outcome
use usb_hid_tool.Prelude.{
  ℕ, zero, suc, Bool, true, false, not, ◌&&◌, ◌||◌, List, [], ◌∷◌, Option, none, some, ◌==◌,
  if◌then◌else◌, length,
}
use usb_hid_tool.Prelude.Int.{ℤ, pos, negsuc, minus_one}
use usb_hid_tool.Run.{Run, done, spent, ◌>>=◌}
use usb_hid_tool.Libusb.Queue.{
  Bytes, Device, ReadError, zero_buffer, thread_terminated, wait_failed, Transfer, return_data,
  read_callbacks,
}

-- `hidapi_thread_cond_timedwait`: 0, HIDAPI_THREAD_TIMED_OUT, or another number.
pub data Answer : Type 0 where
  woken timed_out failed : Answer

pub record Wait : Type 0 where
  pub arrived : List Transfer
  pub answer : Answer

-- What a read returns: the result, the bytes stored, the device.
pub record Got : Type 0 where
  pub result : ℤ
  pub stored : Bytes
  pub dev : Device

abbrev pub got : ℤ → Bytes → Device → Got
got r bytes dev = record { result = r; stored = bytes; dev = dev }

abbrev pub read_failed : Device → ReadError → Got
read_failed dev e = got minus_one [] (record dev { last_read_error = some e })

-- `bytes_read = return_data(dev, data, length)`
unfoldable pub take_report : Device → ℕ → Run Got
take_report dev size = do
  (bytes, dev') ← return_data dev size
  done (got (pos (length bytes)) bytes dev')

abbrev pub is_empty : List Bytes → Bool
is_empty [] = true
is_empty (r ∷ rs) = false

-- `!dev->input_reports && !dev->shutdown_thread`
abbrev pub must_wait : Device → Bool
must_wait dev = is_empty dev.input_reports && not dev.shutdown_thread

-- After the loop of a blocking read.
unfoldable pub blocking_result : Device → ℕ → Run Got
blocking_result dev size =
    if not (is_empty dev.input_reports)
    then take_report dev size
    else done (read_failed dev thread_terminated)

unfoldable pub wait_blocking : List Wait → Device → ℕ → Run Got
wait_blocking [] dev size = if must_wait dev then spent else blocking_result dev size
wait_blocking (w ∷ ws) dev size =
    if must_wait dev
    then (do dev' ← read_callbacks dev w.arrived; wait_blocking ws dev' size)
    else blocking_result dev size

-- One round of the loop of a read with a timeout; `none` is a spurious wake-up.
unfoldable pub timed_round : Answer → Device → ℕ → Run (Option Got)
timed_round woken dev size =
    if not (is_empty dev.input_reports)
    then (do g ← take_report dev size; done (some g))
    else if dev.shutdown_thread
    then done (some (read_failed dev thread_terminated))
    else done none
timed_round timed_out dev size = done (some (got (pos 0) [] dev))
timed_round failed dev size = done (some (read_failed dev wait_failed))

-- The loop is entered with nothing to return; where its test fails `bytes_read` is still -1.
unfoldable pub wait_timed : List Wait → Device → ℕ → Run Got
wait_timed [] dev size = if must_wait dev then spent else done (got minus_one [] dev)
wait_timed (w ∷ ws) dev size =
    if must_wait dev
    then (do
      dev' ← read_callbacks dev w.arrived
      r ← timed_round w.answer dev' size
      elim r [ none ↦ wait_timed ws dev' size | some g ↦ done g ])
    else done (got minus_one [] dev)

-- The branches on `milliseconds`: -1, positive, and all else.
unfoldable pub wait_report : List Wait → Device → ℕ → ℤ → Run Got
wait_report ws dev size (negsuc zero) = wait_blocking ws dev size
wait_report ws dev size (negsuc (suc n)) = done (got (pos 0) [] dev)
wait_report ws dev size (pos zero) = done (got (pos 0) [] dev)
wait_report ws dev size (pos (suc n)) = wait_timed ws dev size

-- `buffer` says that `data` is not NULL.
unfoldable pub hid_read_timeout : List Wait → Device → Bool → ℕ → ℤ → Run Got
hid_read_timeout ws dev buffer size ms =
    if not buffer || size == 0
    then done (read_failed dev zero_buffer)
    else (let fresh : Device = record dev { last_read_error = none } in
        if not (is_empty dev.input_reports)
        then take_report fresh size
        else if dev.shutdown_thread
        then done (read_failed fresh thread_terminated)
        else wait_report ws fresh size ms)

unfoldable pub hid_read : List Wait → Device → Bool → ℕ → Run Got
hid_read ws dev buffer size =
    hid_read_timeout ws dev buffer size (if dev.blocking then minus_one else pos 0)

unfoldable pub hid_set_nonblocking : Device → Bool → Device × ℤ
hid_set_nonblocking dev nonblock = (record dev { blocking = not nonblock }, pos 0)

-- `none` is the text "Success".
unfoldable pub hid_read_error : Device → Option ReadError
hid_read_error dev = dev.last_read_error
