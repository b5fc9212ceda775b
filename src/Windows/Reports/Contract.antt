-- ===== src/Windows/Reports/Contract.antt =====
-- What the report functions of the Windows backend move and return.
use usb_hid_tool.Prelude.{
  ℕ, suc, ◌≤◌, ◌≡◌, ◌≢◌, ◌⊎◌, refl, Bool, [], ◌∷◌, Option, none, some, ◌==◌, if◌then◌else◌, length,
  arith, inl, inr,
}
use usb_hid_tool.Prelude.Int.{pos, minus_one, to_nat}
use usb_hid_tool.Run.{Returns}
use usb_hid_tool.Windows.Transfers.{
  Bytes, no_memory, winapi, named, set_feature, set_output_report, Control, Windows, Device,
  Outcome, outcome, with_error, padded, Buffer, output_buffer, feature_buffer,
}
use usb_hid_tool.Windows.Transfers.Contract.{
  Reported, Padded, output_buffer-Padded, feature_buffer-Padded,
}
use usb_hid_tool.Windows.Reports.{
  hid_send_feature_report, hid_send_output_report, counted, hid_get_report,
}

-- The request fills the buffer it is given; the number it reports does not count a leading 0.
abbrev Fills : ℕ → Option (ℕ × Bytes) → Type 0
Fills size none = Unit
Fills size (some (n, [])) = ⊥
Fills size (some (n, b ∷ bs)) = (length (b ∷ bs) ≡ size) × ((if b == 0 then suc n else n) ≤ size)

abbrev pub IsFilling : {W : Type 0} → Windows W → Type 0
IsFilling {W} os = (w : W) (buf : Bytes) → Fills (length buf) (os.control_overlapped w buf).0

module _ {W : Type 0} (os : Windows W) where
  -- No memory, or a report handed over in one of two states: an error and -1 when that fails, else
  -- the length of the caller's data.
  abbrev SentReport : (W → Bytes → Bool × W) → Bytes → ℕ → W → Outcome W → Type 0
  SentReport call bytes size w s =
      ((s.result ≡ minus_one) × (s.dev.last_error ≡ some no_memory))
      ⊎ ((v : W) × ((v ≡ w) ⊎ (v ≡ (os.malloc w).1))
          × (s.world ≡ (call v (padded bytes size)).1)
          × (if (call v (padded bytes size)).0
              then (s.result ≡ pos (length bytes)) × (s.dev.last_error ≡ none)
              else (s.result ≡ minus_one) × (s.dev.last_error ≢ none)))

  -- A feature or output report that is not short of memory is handed to the system once, padded with
  -- zeros to the longest report of its kind. The result is -1 with an error when the system refuses
  -- it, and else the length of the caller's data without an error.
  send_report-SentReport :
      (dev : Device) (b : ℕ) (bs : Bytes) (w : W)
      → SentReport os.set_feature
          (b ∷ bs)
          dev.feature_report_length
          w
          (hid_send_feature_report os dev (some (b ∷ bs)) w)
        × SentReport os.set_output_report
            (b ∷ bs)
            dev.output_report_length
            w
            (hid_send_output_report os dev (some (b ∷ bs)) w)
  unfolding hid_send_feature_report hid_send_output_report
  send_report-SentReport dev b bs w = (
    feature (feature_buffer os (with_error dev none) (b ∷ bs) w)
        (feature_buffer-Padded os (with_error dev none) (b ∷ bs) w refl),
    output (output_buffer os (with_error dev none) (b ∷ bs) w)
        (output_buffer-Padded os (with_error dev none) (b ∷ bs) w refl),
  )
    where
      feature :
          (buf : Buffer W)
          → Padded os (b ∷ bs) dev.feature_report_length w buf
          → SentReport os.set_feature (b ∷ bs) dev.feature_report_length w (elim buf.bytes [
            | none ↦ outcome minus_one (b ∷ bs) buf.dev buf.world
            | some full ↦
                let (sent, w') = os.set_feature buf.world full in
                if sent
                then outcome (pos (suc (length bs))) (b ∷ bs) buf.dev w'
                else outcome minus_one (b ∷ bs) (with_error buf.dev (some (winapi set_feature))) w'
          ])
      feature buf (inl h) = inl (ground (arith, h))
      feature buf (inr h) = inr (buf.world, h.2, ground (arith, h.0, h.1), ground (arith, h.0, h.1))

      output :
          (buf : Buffer W)
          → Padded os (b ∷ bs) dev.output_report_length w buf
          → SentReport os.set_output_report (b ∷ bs) dev.output_report_length w (elim buf.bytes [
            | none ↦ outcome minus_one (b ∷ bs) buf.dev buf.world
            | some full ↦
                let (sent, w') = os.set_output_report buf.world full in
                if sent
                then outcome (pos (suc (length bs))) (b ∷ bs) buf.dev w'
                else outcome minus_one
                    (b ∷ bs)
                    (with_error buf.dev (some (named set_output_report)))
                    w'
          ])
      output buf (inl h) = inl (ground (arith, h))
      output buf (inr h) = inr (buf.world, h.2, ground (arith, h.0, h.1), ground (arith, h.0, h.1))

  -- Where the system fills the buffer of a request, getting a feature or input report returns. The
  -- result is -1 exactly when an error is left; else it counts a leading 0 and is at most the length
  -- of the buffer, which keeps its length.
  hid_get_report-Reported :
      (c : Control) (dev : Device) (b : ℕ) (bs : Bytes) (w : W)
      → IsFilling os
      → Returns
          (λ s.
            Reported s × (to_nat s.result ≤ length (b ∷ bs)) × (length s.stored ≡ length (b ∷ bs)))
          (hid_get_report os c dev (some (b ∷ bs)) w)
  unfolding hid_get_report counted
  hid_get_report-Reported c dev b bs w f =
      ground (arith, f (os.device_control w c (b ∷ bs)).1 (b ∷ bs))
