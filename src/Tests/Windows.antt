-- ===== src/Tests/Windows.antt =====
-- The Windows backend on a system with one device.
use usb_hid_tool.Prelude.{
  ℕ, suc, ◌≡◌, refl, max, true, false, [], ◌∷◌, Option, none, some, arith, length, ◌==◌,
}
use usb_hid_tool.Prelude.Int.{minus_one, pos}
use usb_hid_tool.Run.{done, ◌>>=◌, Returns}
use usb_hid_tool.Windows.Transfers.{
  Bytes, Outcome, no_memory, pending, Windows, Device, outcome, padded, hid_write, write_buffer,
  output_buffer, write_bytes, finish_write, hid_read_timeout,
}
use usb_hid_tool.Windows.Transfers.Contract.{IsShort, IsStart, Written, hid_write-Written}
use usb_hid_tool.Windows.Transfers.Pending.{
  ReadOutcome, finished_device, hid_read_timeout-ReadOutcome, hid_read_timeout-resumed,
}
use usb_hid_tool.Windows.Reports.Contract.{IsFilling}

-- The world counts the waits for a read: the second is signalled. Writes are pending and finish.
abbrev system : Windows ℕ
system = record {
  malloc = λ w. (true, w);
  write_file = λ w bytes. (pending, w);
  wait_write = λ w. (true, w);
  wait_read = λ w ms. (w == 1, suc w);
  write_overlapped = λ w. (some 5, w);
  read_file = λ w size. (pending, w);
  read_overlapped = λ w. (some (0 ∷ 7 ∷ 8 ∷ 9 ∷ []), w);
  cancel_io = λ w. w;
  set_feature = λ w bytes. (true, w);
  set_output_report = λ w bytes. (false, w);
  device_control = λ w c bytes. (true, w);
  control_overlapped = λ w bytes. (fill bytes, w);
}
  where
    fill : Bytes → Option (ℕ × Bytes)
    fill [] = none
    fill (b ∷ bs) = some (0, b ∷ bs)

abbrev dev : Device
dev = record {
  blocking = false;
  output_report_length = 5;
  write_buf = none;
  input_report_length = 4;
  feature_report_length = 3;
  feature_buf = none;
  last_error = none;
  last_read_error = none;
  read_pending = false;
  read_buf = [];
}

-- A write of two bytes is padded to five.
written : (hid_write system dev (some (6 ∷ 1 ∷ [])) 0).result ≡ pos 5
unfolding hid_write write_buffer output_buffer write_bytes finish_write
written = refl

abbrev written_result : Outcome ℕ
written_result = hid_write system dev (some (6 ∷ 1 ∷ [])) 0

hid_write-Written_example :
    (length (padded (6 ∷ 1 ∷ []) 5) ≡ max 2 5)
    × (IsShort system dev (6 ∷ 1 ∷ []) 0
        → (written_result.result ≡ minus_one)
          × (written_result.dev.last_error ≡ some no_memory)
          × (written_result.world ≡ 0))
    × ((IsShort system dev (6 ∷ 1 ∷ []) 0 → ⊥)
        → (v : ℕ) × IsStart system 0 v × Written system (padded (6 ∷ 1 ∷ []) 5) v written_result)
hid_write-Written_example = hid_write-Written system dev 6 (1 ∷ []) 0

hid_read_timeout-ReadOutcome_example :
    Returns (ReadOutcome 2) (hid_read_timeout system dev true 2 (pos 20) 1)
hid_read_timeout-ReadOutcome_example = hid_read_timeout-ReadOutcome system dev true 2 (pos 20) 1

hid_read_timeout-resumed_example :
    (hid_read_timeout system dev true 2 (pos 0) 0 >>= λ o.
    hid_read_timeout system o.dev true 2 (pos 20) o.world)
    ≡ done (
        outcome
          (pos 2)
          (7 ∷ 8 ∷ [])
          (finished_device
            (record dev { read_pending = true; read_buf = 0 ∷ 0 ∷ 0 ∷ 0 ∷ [] })
            (0 ∷ 7 ∷ 8 ∷ 9 ∷ []))
          2)
hid_read_timeout-resumed_example =
    hid_read_timeout-resumed system dev 2 (pos 0) (pos 20) 0 (0 ∷ 7 ∷ 8 ∷ 9 ∷ []) (λ p. omega arith)
      refl refl refl refl refl

system-IsFilling : IsFilling system
system-IsFilling w [] = omega arith
system-IsFilling w (b ∷ bs) = (refl, ground arith)
