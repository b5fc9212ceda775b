-- ===== src/Windows/State.antt =====
-- What the enumeration and opening of hidapi/windows/hid.c keep: the numbers of device handles, of
-- event handles and of preparsed data that the program has open, and the global error.
use usb_hid_tool.Prelude.{ℕ, suc, ◌+◌, ◌-◌, Option, some}

-- The global error: the message that is registered.
pub data GlobalError : Type 0 where
  init_failed list_size_failed list_failed no_devices no_matching not_found : GlobalError
  path_conversion open_failed set_buffers_failed preparsed_failed caps_failed : GlobalError

pub record State : Type 0 where
  pub open_handles : ℕ
  pub open_events : ℕ
  pub open_preparsed : ℕ
  pub global_error : Option GlobalError

abbrev pub with_global_error : State → GlobalError → State
with_global_error s e = record s { global_error = some e }

abbrev pub opened_handle : State → State
opened_handle s = record s { open_handles = suc s.open_handles }

-- `CloseHandle` on a device handle.
abbrev pub closed_handle : State → State
closed_handle s = record s { open_handles = s.open_handles - 1 }

-- The two calls of `CreateEvent` for a device.
abbrev pub created_events : State → State
created_events s = record s { open_events = 2 + s.open_events }

-- `CloseHandle` on both.
abbrev pub closed_events : State → State
closed_events s = record s { open_events = s.open_events - 2 }

-- `HidD_GetPreparsedData`, where it succeeds.
abbrev pub got_preparsed : State → State
got_preparsed s = record s { open_preparsed = suc s.open_preparsed }

-- `HidD_FreePreparsedData`
abbrev pub freed_preparsed : State → State
freed_preparsed s = record s { open_preparsed = s.open_preparsed - 1 }
