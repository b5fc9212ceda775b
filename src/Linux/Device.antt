-- ===== src/Linux/Device.antt =====
pub mod Contract
-- A device opened by hidapi/linux/hid.c: `struct hid_device_`, `hid_write`, `hid_read_timeout`,
-- `hid_read`, `hid_set_nonblocking`, the four report functions over `ioctl`, `hid_read_error`.
-- The kernel is a parameter: each call takes a state of the world and returns the next one.
-- A result is -1 with an `errno`, or a number of bytes; `unsigned char *data` is the bytes that it
-- points to, `none` for NULL.
use usb_hid_tool.Prelude.{
  ℕ, ◌+◌, ◌≤◌, ◌≡◌, Bool, true, false, not, ◌&&◌, ◌||◌, List, [], Option, none, some, ◌==◌,
  if◌then◌else◌, length, bit_and,
}
use usb_hid_tool.Prelude.Int.{ℤ, pos, negsuc, minus_one, is_neg}

abbrev pub Bytes : Type 0
Bytes = List ℕ

-- The reports that `ioctl` moves: HIDIOCSFEATURE, HIDIOCGFEATURE, HIDIOCSOUTPUT, HIDIOCGINPUT.
pub data Request : Type 0 where
  set_feature get_feature set_output get_input : Request

-- What `register_device_error` and `register_error_str` store.
pub data Message : Type 0 where
  zero_buffer : Message
  poll_error : Message
  not_supported : Message
  system : ℕ → Message
  ioctl_failed : Request → ℕ → Message

pub record Device : Type 0 where
  pub device_handle : ℕ
  pub blocking : Bool
  pub last_error : Option Message
  pub last_read_error : Option Message

-- A system call: -1 and `errno`, or what it returns.
pub data Reply (A : Type 0) : Type 0 where
  failed : ℕ → Reply A
  returned : A → Reply A

pub record Kernel (W : Type 0) : Type 0 where
  pub write : W → ℕ → Bytes → Reply ℕ × W
  -- `read` into a buffer of the given size
  pub read : W → ℕ → ℕ → Reply Bytes × W
  -- `poll` for POLLIN with a timeout: `none` when it runs out, or `revents`
  pub poll : W → ℕ → ℕ → Reply (Option ℕ) × W
  -- the result and the buffer afterwards
  pub ioctl : W → ℕ → Request → Bytes → Reply (ℕ × Bytes) × W

abbrev eagain : ℕ
eagain = 11

abbrev einprogress : ℕ
einprogress = 115

-- POLLERR | POLLHUP | POLLNVAL
abbrev poll_failure : ℕ
poll_failure = 0x38

unfoldable pub new_hid_device : ℕ → Device
new_hid_device handle = record {
  device_handle = handle;
  blocking = true;
  last_error = none;
  last_read_error = none;
}

unfoldable pub hid_set_nonblocking : Device → Bool → Device × ℤ
hid_set_nonblocking dev nonblock = (record dev { blocking = not nonblock }, pos 0)

-- `hid_error` and `hid_read_error`; `none` is the text "Success".
unfoldable pub hid_error : Device → Option Message
hid_error dev = dev.last_error

unfoldable pub hid_read_error : Device → Option Message
hid_read_error dev = dev.last_read_error

unfoldable hid_get_indexed_string : Device → Device × ℤ
hid_get_indexed_string dev = (record dev { last_error = some not_supported }, minus_one)

-- What a read returns: the result, the bytes stored in the buffer, the device, the world.
pub record Got (W : Type 0) : Type 0 where
  pub result : ℤ
  pub stored : Bytes
  pub dev : Device
  pub world : W

abbrev pub got : {W : Type 0} → ℤ → Bytes → Device → W → Got W
got r bytes dev w = record { result = r; stored = bytes; dev = dev; world = w }

module _ {W : Type 0} (k : Kernel W) where
  unfoldable pub hid_write : Device → Option Bytes → W → ℤ × Device × W
  hid_write dev none w = (minus_one, record dev { last_error = some zero_buffer }, w)
  hid_write dev (some buf) w =
      if length buf == 0
      then (minus_one, record dev { last_error = some zero_buffer }, w)
      else (let (r, w') = k.write w dev.device_handle buf in
          elim r [
            | failed e ↦ (minus_one, record dev { last_error = some (system e) }, w')
            | returned n ↦ (pos n, record dev { last_error = none }, w')
          ])

  abbrev pub read_failed : Device → Message → W → Got W
  read_failed dev m w = got minus_one [] (record dev { last_read_error = some m }) w

  -- From `bytes_read = read(…)` on.
  unfoldable pub read_report : Device → ℕ → W → Got W
  read_report dev size w =
      let (r, w') = k.read w dev.device_handle size in
      elim r [
        | failed e ↦
            if e == eagain || e == einprogress
            then got (pos 0) [] dev w'
            else read_failed dev (system e) w'
        | returned bytes ↦ got (pos (length bytes)) bytes dev w'
      ]

  -- The block under `if (milliseconds >= 0)`.
  unfoldable pub poll_report : Device → ℕ → ℕ → W → Got W
  poll_report dev size ms w =
      let (r, w') = k.poll w dev.device_handle ms in
      elim r [
        | failed e ↦ read_failed dev (system e) w'
        | returned none ↦ got (pos 0) [] dev w'
        | returned (some revents) ↦
            if bit_and revents poll_failure == 0
            then read_report dev size w'
            else read_failed dev poll_error w'
      ]

  -- `buffer` says that `data` is not NULL.
  unfoldable pub hid_read_timeout : Device → Bool → ℕ → ℤ → W → Got W
  hid_read_timeout dev buffer size ms w =
      if not buffer || size == 0
      then read_failed dev zero_buffer w
      else (let fresh : Device = record dev { last_read_error = none } in
          elim ms [ pos t ↦ poll_report fresh size t w | negsuc t ↦ read_report fresh size w ])

  unfoldable pub hid_read : Device → Bool → ℕ → W → Got W
  hid_read dev buffer size w =
      hid_read_timeout dev buffer size (if dev.blocking then minus_one else pos 0) w

  -- The body that the four report functions share but for the request.
  unfoldable pub report_ioctl : Request → Device → Option Bytes → W → Got W
  report_ioctl q dev none w = got minus_one [] (record dev { last_error = some zero_buffer }) w
  report_ioctl q dev (some buf) w =
      if length buf == 0
      then got minus_one [] (record dev { last_error = some zero_buffer }) w
      else (let (r, w') = k.ioctl w dev.device_handle q buf in
          elim r [
            | failed e ↦ got minus_one buf (record dev { last_error = some (ioctl_failed q e) }) w'
            | returned (n, bytes) ↦ got (pos n) bytes (record dev { last_error = none }) w'
          ])

  unfoldable pub hid_send_feature_report : Device → Option Bytes → W → Got W
  hid_send_feature_report = report_ioctl set_feature

  unfoldable pub hid_get_feature_report : Device → Option Bytes → W → Got W
  hid_get_feature_report = report_ioctl get_feature

  unfoldable pub hid_send_output_report : Device → Option Bytes → W → Got W
  hid_send_output_report = report_ioctl set_output

  unfoldable pub hid_get_input_report : Device → Option Bytes → W → Got W
  hid_get_input_report = report_ioctl get_input
