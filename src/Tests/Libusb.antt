-- ===== src/Tests/Libusb.antt =====
-- The libusb backend on short histories.
use usb_hid_tool.Prelude.{
  ℕ, suc, ◌≡◌, ◌≢◌, refl, true, false, List, [], ◌∷◌, none, some, arith, length, inl, inr,
}
use usb_hid_tool.Prelude.Int.{pos}
use usb_hid_tool.Run.{done, Returns}
use usb_hid_tool.Libusb.Queue.{Bytes, Device, Transfer, completed, cancelled, read_callbacks}
use usb_hid_tool.Libusb.Queue.Fifo.{AfterAll, read_callbacks-AfterAll}
use usb_hid_tool.Libusb.Read.{Wait, woken, hid_read_timeout}
use usb_hid_tool.Libusb.Read.Waits.{Outcome}
use usb_hid_tool.Libusb.Read.Outcome.{hid_read_timeout-Returned}
use usb_hid_tool.Libusb.Error.{write, no_device_info, hid_error, no_error, made, message}
use usb_hid_tool.Libusb.Error.Latest.{clear, fail, say, ask, calls, hid_error-latest}
use usb_hid_tool.Libusb.Reports.{
  Reply, failed, returned, Request, set_report, get_report, Libusb, hid_write,
  hid_send_output_report, hid_send_feature_report, hid_get_input_report,
}
use usb_hid_tool.Libusb.Reports.Contract.{Reported, Bounded, hid_write-Wire}
use usb_hid_tool.Libusb.Interface.{InterfaceDescriptor}
use usb_hid_tool.Libusb.Usage.{get_usage}
use usb_hid_tool.Libusb.Usage.Encoding.{Item, short, encode}
use usb_hid_tool.Libusb.Usage.Items.{get_usage-first_usage}

abbrev dev : Device
dev = record {
  blocking = true;
  shutdown_thread = false;
  transfer_loop_finished = false;
  input_reports = [];
  last_read_error = none;
}

abbrev arrival : Bytes → Transfer
arrival bytes = record { status = completed; received = bytes; resubmit = 0 }

abbrev stop : Transfer
stop = record { status = cancelled; received = []; resubmit = 0 }

read_callbacks-AfterAll_example :
    Returns
      (AfterAll dev (arrival (7 ∷ []) ∷ arrival (8 ∷ []) ∷ stop ∷ []))
      (read_callbacks dev (arrival (7 ∷ []) ∷ arrival (8 ∷ []) ∷ stop ∷ []))
read_callbacks-AfterAll_example =
    read_callbacks-AfterAll (arrival (7 ∷ []) ∷ arrival (8 ∷ []) ∷ stop ∷ []) dev (omega arith)

abbrev waits : List Wait
waits =
    record { arrived = []; answer = woken }
    ∷ record { arrived = arrival (7 ∷ 8 ∷ 9 ∷ []) ∷ []; answer = woken }
    ∷ []

hid_read_timeout-Returned_example : Returns (Outcome 2) (hid_read_timeout waits dev true 2 (pos 20))
hid_read_timeout-Returned_example =
    hid_read_timeout-Returned (pos 20) waits dev true 2 (omega arith)
      (inr (inl (inr (inl (λ p. cc)))))

hid_error-latest_example :
    (hid_error made (calls no_error (fail 0 write ∷ ask ∷ clear ∷ ask ∷ say no_device_info ∷ []))).0
    ≡ message no_device_info
hid_error-latest_example =
    hid_error-latest (fail 0 write ∷ ask ∷ clear ∷ ask ∷ say no_device_info ∷ [])

-- A libusb that moves whole buffers; the world counts the transfers.
abbrev usb : Libusb ℕ
usb = record {
  interrupt_transfer = λ w ep bytes. (returned (length bytes), suc w);
  control_transfer = λ w q bytes. (returned (length bytes, bytes), suc w);
}

abbrev open_device : usb_hid_tool.Libusb.Reports.Device
open_device = record { output_endpoint = 2; interface = 0; error = no_error }

usb-Bounded : Bounded usb
usb-Bounded w q buf = (omega arith, refl)

hid_write-Wire_example :
    let s = hid_write usb open_device (some (0 ∷ 1 ∷ 2 ∷ [])) 0 in
    Reported s
    × (open_device.output_endpoint ≡ 0
        → s ≡ hid_send_output_report usb open_device (some (0 ∷ 1 ∷ 2 ∷ [])) 0)
    × (open_device.output_endpoint ≢ 0
        → (s.world ≡ 1)
          × ((m : ℕ)
              → (usb.interrupt_transfer 0 2 (1 ∷ 2 ∷ [])).0 ≡ returned m
              → s.result ≡ pos (suc m)))
hid_write-Wire_example = hid_write-Wire usb open_device 0 (1 ∷ 2 ∷ []) 0

abbrev hid_interface : Bytes → InterfaceDescriptor
hid_interface extra = record {
  number = 0;
  interface_class = 3;
  interface_subclass = 0;
  interface_protocol = 0;
  extra = extra;
}

-- An audio descriptor, a HID descriptor with a report of 52 bytes, an endpoint.
abbrev extra : Bytes
extra = 3 ∷ 0x24 ∷ 1 ∷ 9 ∷ 0x21 ∷ 0x11 ∷ 1 ∷ 0 ∷ 1 ∷ 0x22 ∷ 52 ∷ 0 ∷ 7 ∷ 5 ∷ []

abbrev items : List Item
items = short 0x06 (0x13 ∷ 0xFF ∷ []) ∷ short 0x09 (0x01 ∷ []) ∷ short 0xA1 (0x01 ∷ []) ∷ []

get_usage-first_usage_example :
    get_usage (encode items) (length (encode items))
    ≡ done (true, record { usage_page = some 0xFF13; usage = some 1 })
get_usage-first_usage_example = get_usage-first_usage items (ground arith) (omega arith)
