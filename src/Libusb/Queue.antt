-- ===== src/Libusb/Queue.antt =====
-- The queue of input reports of hidapi/libusb/hid.c: `read_callback`, which the read thread runs for
-- each transfer, and `return_data`, which takes a report out. Both run with the mutex held.
pub mod Fifo
use usb_hid_tool.Prelude.{
  ℕ, ◌-◌, min, Bool, true, false, List, [], ◌∷◌, ◌++◌, Option, none, some, ltb, ◌==◌, if◌then◌else◌,
  length, take,
}
use usb_hid_tool.Run.{Run, done, fault, ◌>>=◌}

abbrev pub Bytes : Type 0
Bytes = List ℕ

-- What `register_read_error` stores.
pub data ReadError : Type 0 where
  zero_buffer thread_terminated wait_failed : ReadError

-- The fields of `struct hid_device_` that reading uses.
pub record Device : Type 0 where
  pub blocking : Bool
  pub shutdown_thread : Bool
  pub transfer_loop_finished : Bool
  pub input_reports : List Bytes
  pub last_read_error : Option ReadError

-- `transfer->status`
pub data Status : Type 0 where
  completed cancelled no_device timed_out other : Status

-- A transfer handed to the callback: its status, the `actual_length` bytes of its buffer, and what
-- `libusb_submit_transfer` answers when it is submitted again.
pub record Transfer : Type 0 where
  pub status : Status
  pub received : Bytes
  pub resubmit : ℕ

-- `return_data(dev, data, length)`: the bytes copied, and the device without its first report. The
-- first report is read without a test for NULL.
unfoldable pub return_queued : List Bytes → Device → ℕ → Run (Bytes × Device)
return_queued [] dev size = fault
return_queued (rpt ∷ rpts) dev size =
    done (take (min size (length rpt)) rpt, record dev { input_reports = rpts })

unfoldable pub return_data : Device → ℕ → Run (Bytes × Device)
return_data dev size = return_queued dev.input_reports dev size

-- A completed transfer: the report goes to the end of the list. `num_queued` counts the reports
-- before the last one; above 30 the first report is dropped.
unfoldable pub enqueue_on : List Bytes → Device → Bytes → Run Device
enqueue_on [] dev rpt = done (record dev { input_reports = rpt ∷ [] })
enqueue_on (r ∷ rs) dev rpt =
    let dev' : Device = record dev { input_reports = (r ∷ rs) ++ (rpt ∷ []) } in
    let num_queued = length rs in
    if ltb 30 num_queued then (do (_, dev'') ← return_data dev' 0; done dev'') else done dev'

unfoldable pub enqueue : Device → Bytes → Run Device
enqueue dev rpt = enqueue_on dev.input_reports dev rpt

-- The cases of the status.
unfoldable pub on_status : Status → Device → Bytes → Run Device
on_status completed dev rpt = enqueue dev rpt
on_status cancelled dev rpt = done (record dev { shutdown_thread = true })
on_status no_device dev rpt = done (record dev { shutdown_thread = true })
on_status timed_out dev rpt = done dev
on_status other dev rpt = done dev

-- The end of the callback: the transfer loop is over, or the transfer is submitted again.
unfoldable pub resubmit : Device → ℕ → Device
resubmit dev answer =
    if dev.shutdown_thread
    then record dev { transfer_loop_finished = true }
    else if answer == 0
    then dev
    else record dev { shutdown_thread = true; transfer_loop_finished = true }

unfoldable pub read_callback : Device → Transfer → Run Device
read_callback dev t = do dev' ← on_status t.status dev t.received; done (resubmit dev' t.resubmit)

-- The callbacks of a series of transfers.
unfoldable pub read_callbacks : Device → List Transfer → Run Device
read_callbacks dev [] = done dev
read_callbacks dev (t ∷ ts) = do dev' ← read_callback dev t; read_callbacks dev' ts
