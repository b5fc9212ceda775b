-- ===== src/Windows/Strings/Contract.antt =====
-- The contract of the functions of hidapi/windows/hid.c on an open device.
use usb_hid_tool.Prelude.{
  ℕ, suc, ◌-◌, ◌<◌, ◌≡◌, ◌≢◌, refl, Bool, true, false, List, Option, none, some, length, take,
  length-take, arith, Bool-cases, ◌==◌, Option-cases, inl, inr,
}
use usb_hid_tool.Prelude.Int.{ℤ, pos, minus_one}
use usb_hid_tool.Windows.DevNode.{Wide, DeviceInfo}
use usb_hid_tool.Windows.Strings.{
  Message, not_reconstructed, zero_buffer, Device, Outcome, failed, succeeded, copy_string,
  hid_get_manufacturer_string, hid_get_product_string, hid_get_serial_number_string,
  hid_get_report_descriptor,
}

-- A value `a` is stored, with 0 and no error.
abbrev IsStored : {A : Type 0} → (A → Type 0) → Option A → ℤ → Option Message → Type 0
IsStored P none result error = (result ≡ minus_one) × (error ≢ none)
IsStored P (some a) result error = P a × (result ≡ pos 0) × (error ≡ none)

-- 0, with a value stored and no error, or -1, with nothing stored and an error; nothing else changes.
abbrev pub IsReported : {A : Type 0} → (A → Type 0) → Device → Outcome A → Type 0
IsReported P dev o =
    (o.dev.device_handle ≡ dev.device_handle)
    × (o.dev.device_info ≡ dev.device_info)
    × IsStored P o.stored o.result o.dev.last_error

failed-IsReported :
    {A : Type 0} (P : A → Type 0) (dev : Device) (m : Message) → IsReported P dev (failed dev m)
failed-IsReported P dev m = (refl, refl, (refl, ground arith))

succeeded-IsReported :
    {A : Type 0} (P : A → Type 0) (dev : Device) (a : A) → P a → IsReported P dev (succeeded dev a)
succeeded-IsReported P dev a h = (refl, refl, (h, refl, refl))

-- A string of the record of the device, cut to fit with its NUL.
abbrev pub IsCopy : (DeviceInfo → Wide) → Device → ℕ → Wide → Type 0
IsCopy field dev maxlen s =
    (info : DeviceInfo) × (dev.device_info ≡ some info)
    × (s ≡ take (maxlen - 1) (field info))
    × (length s < maxlen)

copy_fits : (maxlen : ℕ) (s : Wide) → maxlen ≢ 0 → length (take (maxlen - 1) s) < maxlen
copy_fits maxlen s n = omega (arith, n, length-take (maxlen - 1) s)

copy_string-IsReported :
    (field : DeviceInfo → Wide) (dev : Device) (has_string : Bool) (maxlen : ℕ)
    → IsReported (IsCopy field dev maxlen) dev (copy_string field dev has_string maxlen)
unfolding copy_string
copy_string-IsReported field dev false maxlen =
    failed-IsReported (IsCopy field dev maxlen) dev zero_buffer
copy_string-IsReported field dev true maxlen = elim (Bool-cases (maxlen == 0)) [
  | inl e ↦ rw (e, IsReported) (failed-IsReported (IsCopy field dev maxlen) dev zero_buffer)
  | inr e ↦ elim (Option-cases dev.device_info) [
    | inl k ↦ rw (e, IsReported) (rw (k, IsReported) (refl, k, (refl, ground arith)))
    | inr (info, k) ↦
        rw (e, IsReported)
          (rw (k, IsReported)
            (
              refl,
              k,
              ((info, refl, refl, copy_fits maxlen (field info) (ground (arith, e))), refl, refl),
            ))
  ]
]

-- Each of the three functions stores its own string of the record of the device, cut to fit in `maxlen`
-- characters with its NUL, and returns 0 without an error; or it stores nothing, leaves an error and
-- returns -1. No other field of the device changes.
pub string_functions-IsReported :
    (dev : Device) (has_string : Bool) (maxlen : ℕ)
    → IsReported
        (IsCopy (λ (d : DeviceInfo). d.manufacturer_string) dev maxlen)
        dev
        (hid_get_manufacturer_string dev has_string maxlen)
      × IsReported
          (IsCopy (λ (d : DeviceInfo). d.product_string) dev maxlen)
          dev
          (hid_get_product_string dev has_string maxlen)
      × IsReported
          (IsCopy (λ (d : DeviceInfo). d.serial_number) dev maxlen)
          dev
          (hid_get_serial_number_string dev has_string maxlen)
unfolding hid_get_manufacturer_string hid_get_product_string hid_get_serial_number_string
string_functions-IsReported dev has_string maxlen = (
  copy_string-IsReported (λ (d : DeviceInfo). d.manufacturer_string) dev has_string maxlen,
  copy_string-IsReported (λ (d : DeviceInfo). d.product_string) dev has_string maxlen,
  copy_string-IsReported (λ (d : DeviceInfo). d.serial_number) dev has_string maxlen,
)

-- A descriptor that is reconstructed in one byte or more leaves the error that it was not.
hid_get_report_descriptor-error :
    (reconstruct : ℕ → Option (ℤ × List ℕ)) (dev : Device) (n : ℕ) (buf : List ℕ)
    → reconstruct dev.device_handle ≡ some (pos (suc n), buf)
    → let o = hid_get_report_descriptor reconstruct dev in
      (o.result ≡ pos (suc n)) × (o.dev.last_error ≡ some not_reconstructed)
unfolding hid_get_report_descriptor
hid_get_report_descriptor-error reconstruct dev n buf e =
    (rw (e, hid_get_report_descriptor) refl, rw (e, hid_get_report_descriptor) (ground arith))
