-- ===== src/Race/Transport.antt =====
-- src/transport/hid_transport.cpp: `HidTransport`. hidapi is a parameter: a call takes a state of the
-- world. Strings are lists of characters, UTF-8 in and out is the identity on paths, and the text of
-- an error is its kind with hidapi's own text.
pub mod Path
pub mod Lifecycle
use usb_hid_tool.Prelude.{
  ℕ, zero, suc, max, Bool, true, false, not, ◌&&◌, ◌||◌, List, [], ◌∷◌, Option, none, some, ltb,
  ◌==◌, if◌then◌else◌, length, take, set, replicate,
}
use usb_hid_tool.Prelude.Int.{ℤ, pos, negsuc}

abbrev pub Bytes : Type 0
Bytes = List ℕ

-- The fields of `struct hid_device_info` that are used.
pub record DeviceInfo : Type 0 where
  pub vendor_id : ℕ
  pub product_id : ℕ
  pub usage_page : ℕ
  pub path : List ℕ

-- hidapi, over the handles that it gives out.
pub record Hidapi (H W : Type 0) : Type 0 where
  pub enumerate : W → ℕ → ℕ → List DeviceInfo × W
  pub open_path : W → List ℕ → Option H × W
  pub set_nonblocking : W → H → Bool → W
  pub close : W → H → W
  pub write : W → H → Bytes → ℤ × W
  pub read : W → H → ℕ → ℤ × Bytes × W
  pub get_input_report : W → H → Bytes → ℤ × Bytes × W
  pub error : W → H → Option (List ℕ)

pub data TransportError : Type 0 where
  no_interface open_failed not_open read_failed : TransportError
  write_failed get_input_report_failed : Option (List ℕ) → TransportError

pub record HidTransport (H : Type 0) : Type 0 where
  pub device : Option H
  pub poll_timer_active : Bool
  pub poll_input_report_id : ℕ
  pub poll_read_buffer_size : ℕ

-- The signals.
pub data Signal : Type 0 where
  report_received : Bytes → Signal
  transport_error : TransportError → Signal

abbrev pub race_hid_usage_page : ℕ
race_hid_usage_page = 0xFF13

-- The loop of `pickDevicePath`; `fallback` is the first interface of the device.
unfoldable pub pick_path : ℕ → ℕ → List DeviceInfo → Option (List ℕ) → List ℕ
pick_path vid pid [] none = []
pick_path vid pid [] (some path) = path
pick_path vid pid (cur ∷ devs) fallback =
    if not (cur.vendor_id == vid) || not (cur.product_id == pid)
    then pick_path vid pid devs fallback
    else if cur.usage_page == race_hid_usage_page
    then cur.path
    else elim fallback [
      | none ↦ pick_path vid pid devs (some cur.path)
      | some p ↦ pick_path vid pid devs (some p)
    ]

-- What a method returns: `none` is true, `some e` is false with `errMsg`.
pub record Done (H W : Type 0) : Type 0 where
  pub error : Option TransportError
  pub transport : HidTransport H
  pub world : W

abbrev pub finished : {H W : Type 0} → Option TransportError → HidTransport H → W → Done H W
finished e t w = record { error = e; transport = t; world = w }

-- What `getInputReport` returns: a report, nothing (false with an empty text), or an error.
pub data Input : Type 0 where
  got_report : Bytes → Input
  no_report : Input
  input_failed : TransportError → Input

unfoldable pub is_open : {H : Type 0} → HidTransport H → Bool
is_open t = elim t.device [ none ↦ false | some _ ↦ true ]

unfoldable pub configure_input_polling : {H : Type 0} → HidTransport H → ℕ → ℕ → HidTransport H
configure_input_polling t report_id size = record t {
  poll_input_report_id = report_id;
  poll_read_buffer_size = max 64 size;
}

module _ {H W : Type 0} (api : Hidapi H W) where
  unfoldable pub pick_device_path : ℕ → ℕ → W → List ℕ × W
  pick_device_path vid pid w =
      let (devs, w') = api.enumerate w vid pid in (pick_path vid pid devs none, w')

  unfoldable pub close : HidTransport H → W → HidTransport H × W
  close t w =
      let stopped : HidTransport H = record t {
        device = none;
        poll_timer_active = false;
        poll_input_report_id = 0;
      } in
      elim t.device [ none ↦ (stopped, w) | some h ↦ (stopped, api.close w h) ]

  -- The part of `open` behind the search for a path, from a closed transport on.
  unfoldable pub open_at : List ℕ → HidTransport H → W → Done H W
  open_at [] t w = finished (some no_interface) t w
  open_at (c ∷ cs) t w =
      let (h, w') = api.open_path w (c ∷ cs) in
      elim h [
        | none ↦ finished (some open_failed) t w'
        | some h ↦
            finished none (record t { device = some h; poll_timer_active = true })
              (api.set_nonblocking w' h true)
      ]

  unfoldable pub open_device : ℕ → ℕ → HidTransport H → W → Done H W
  open_device vid pid t w =
      let (closed, w') = close t w in
      let restored : HidTransport H = record closed {
        poll_input_report_id = t.poll_input_report_id;
        poll_read_buffer_size = t.poll_read_buffer_size;
      } in
      let (path, w'') = pick_device_path vid pid w' in open_at path restored w''

  unfoldable pub write_report : Bytes → HidTransport H → W → Done H W
  write_report report t w = elim t.device [
    | none ↦ finished (some not_open) t w
    | some h ↦
        let (wrote, w') = api.write w h report in
        elim wrote [
          | negsuc _ ↦ finished (some (write_failed (api.error w' h))) t w'
          | pos _ ↦ finished none t w'
        ]
  ]

  -- The branch of `getInputReport` for all systems but Linux, with a report of `n` bytes.
  unfoldable pub get_input_report : ℕ → HidTransport H → W → Input × W
  get_input_report report_id t w = elim t.device [
    | none ↦ (input_failed not_open, w)
    | some h ↦
        let buf : Bytes = set (replicate t.poll_read_buffer_size 0) 0 report_id in
        let (n, buf', w') = api.get_input_report w h buf in
        elim n [
          | negsuc _ ↦ (input_failed (get_input_report_failed (api.error w' h)), w')
          | pos n ↦ if n == 0 then (no_report, w') else (got_report (take n buf'), w')
        ]
  ]

  -- The signal of a read of `n` bytes.
  unfoldable pub read_signal : ℤ → Bytes → List Signal
  read_signal (negsuc _) bytes = transport_error read_failed ∷ []
  read_signal (pos zero) bytes = []
  read_signal (pos (suc n)) bytes = report_received (take (suc n) bytes) ∷ []

  abbrev input_signal : Input → List Signal
  input_signal (got_report bytes) = report_received bytes ∷ []
  input_signal no_report = []
  input_signal (input_failed e) = transport_error e ∷ []

  unfoldable pub poll_read : HidTransport H → W → List Signal × W
  poll_read t w = elim t.device [
    | none ↦ ([], w)
    | some h ↦
        if t.poll_input_report_id == 0
        then (let (n, bytes, w') = api.read w h 64 in (read_signal n bytes, w'))
        else (let (r, w') = get_input_report t.poll_input_report_id t w in (input_signal r, w'))
  ]
