-- ===== src/Libusb/Error.antt =====
-- The error state of hidapi/libusb/hid.c: `hidapi_error_ctx`, `register_libusb_error`,
-- `register_string_error`, `hid_error` and `hid_libusb_error`.
-- A `enum libusb_error` is an integer, 0 for success; the texts of the library's own messages and the
-- contexts, which the code compares as pointers to string literals, are enumerated.
pub mod Latest
use usb_hid_tool.Prelude.{ℕ, Bool, true, false, ◌&&◌, ◌==◌, Option, none, some, if◌then◌else◌}
use usb_hid_tool.Prelude.Int.{ℤ, pos, negsuc}

-- The literals given to `register_string_error` for a device.
pub data Message : Type 0 where
  zero_buffer no_device_info no_string : Message

-- The literals given to `register_libusb_error` for a device.
pub data Context : Type 0 where
  write send_feature get_feature send_output get_input indexed_string report_descriptor : Context

-- A text that `hid_error` returns. `described` is "context: (name) description" in wide characters.
pub data Text : Type 0 where
  success allocation_error format_error : Text
  message : Message → Text
  described : ℤ → Option Context → Text

pub record ErrorCtx : Type 0 where
  pub error_code : ℤ
  pub error_context : Option Context
  pub last_error_code_cache : ℤ
  pub last_error_context_cache : Option Context
  pub last_error_str : Option Text

-- What `calloc` leaves.
abbrev pub no_error : ErrorCtx
no_error = record {
  error_code = pos 0;
  error_context = none;
  last_error_code_cache = pos 0;
  last_error_context_cache = none;
  last_error_str = none;
}

unfoldable pub register_libusb_error : ErrorCtx → ℤ → Option Context → ErrorCtx
register_libusb_error err code context = record err { error_code = code; error_context = context }

-- `copied` says that `ctowcdup` got its memory.
unfoldable pub register_string_error : Bool → ErrorCtx → Message → ErrorCtx
register_string_error copied err m = record err {
  last_error_str = if copied then some (message m) else none;
  error_code = pos 1;
  last_error_code_cache = pos 1;
  error_context = none;
  last_error_context_cache = none;
}

abbrev pub same_code : ℤ → ℤ → Bool
same_code (pos a) (pos b) = a == b
same_code (negsuc a) (negsuc b) = a == b
same_code _ _ = false

abbrev pub context_number : Context → ℕ
context_number write = 0
context_number send_feature = 1
context_number get_feature = 2
context_number send_output = 3
context_number get_input = 4
context_number indexed_string = 5
context_number report_descriptor = 6

abbrev pub same_context : Option Context → Option Context → Bool
same_context none none = true
same_context (some a) (some b) = context_number a == context_number b
same_context _ _ = false

-- What the C library answers while the text is made: `snprintf` fails, or memory for the narrow or
-- the wide text runs out, or it is made.
pub data Making : Type 0 where
  bad_format no_memory made : Making

abbrev cleared : ErrorCtx → ErrorCtx
cleared err = record err {
  last_error_str = none;
  last_error_code_cache = pos 0;
  last_error_context_cache = none;
}

unfoldable pub make_text : Making → ErrorCtx → Text × ErrorCtx
make_text bad_format err = (format_error, cleared err)
make_text no_memory err = (allocation_error, cleared err)
make_text made err = (
  described err.error_code err.error_context,
  record err {
    last_error_str = some (described err.error_code err.error_context);
    last_error_code_cache = err.error_code;
    last_error_context_cache = err.error_context;
  },
)

abbrev pub kept_text : Option Text → Text
kept_text none = allocation_error
kept_text (some t) = t

-- `hid_error(dev)`: the text, and the error state with the text cached.
unfoldable pub hid_error : Making → ErrorCtx → Text × ErrorCtx
hid_error making err =
    if same_code err.error_code (pos 0)
    then (success, err)
    else if same_code err.error_code err.last_error_code_cache
        && same_context err.error_context err.last_error_context_cache
    then (kept_text err.last_error_str, err)
    else make_text making err

unfoldable pub hid_libusb_error : ErrorCtx → ℤ
hid_libusb_error err = err.error_code
