-- ===== src/Race/Packet/Parse.antt =====
-- What the parser of input reports accepts.
use usb_hid_tool.Prelude.{
  ℕ, suc, ◌+◌, ◌-◌, ◌≤◌, ◌<◌, ◌≡◌, ◌≢◌, refl, ap, [], ◌∷◌, ◌++◌, ltb, ◌==◌, length, take, drop,
  length-take, take-append-drop, arith, Bool-cases, inl, inr,
}
use usb_hid_tool.Run.{done, read, Returns}
use usb_hid_tool.Race.Packet.{
  Bytes, HidReportConfig, Parsed, accepted, no_data, refused, too_short, unexpected_id,
  invalid_length, parse_in_report,
}

-- A report as the firmware sends it: the length byte counts the payload behind the target.
abbrev pub in_report : ℕ → ℕ → Bytes → Bytes → Bytes
in_report id target payload pad = id ∷ length payload ∷ target ∷ payload ++ pad

-- What holds of a report by the outcome of parsing it.
abbrev pub Describes : HidReportConfig → Bytes → Parsed → Type 0
Describes cfg raw (accepted payload target) =
    (raw ≡ in_report cfg.in_report_id target payload (drop (3 + length payload) raw))
    × (0 < length payload)
    × (length payload ≤ cfg.report_size - 3)
    × (cfg.report_size ≤ length raw)
Describes cfg raw no_data =
    (read raw 0 ≡ done cfg.in_report_id) × (read raw 1 ≡ done 0) × (cfg.report_size ≤ length raw)
Describes cfg raw (refused too_short) = length raw < cfg.report_size
Describes cfg raw (refused unexpected_id) = read raw 0 ≢ done cfg.in_report_id
Describes cfg raw (refused invalid_length) = (n : ℕ) → read raw 1 ≡ done n → cfg.report_size - 3 < n

-- The payload of `n` bytes that is cut out of a report.
cut_payload : (n : ℕ) (rest : Bytes) → n ≤ length rest → length (take n rest) ≡ n
cut_payload n rest h = omega (arith, length-take n rest)

whole :
    (a n t : ℕ) (rest : Bytes) (id : ℕ)
    → a ≡ id
    → n ≤ length rest
    → a ∷ n ∷ t ∷ rest
      ≡ in_report id t (take n rest) (drop (3 + length (take n rest)) (a ∷ n ∷ t ∷ rest))
whole a n t rest id e h =
    let p = cut_payload n rest h in
    let q : drop (3 + length (take n rest)) (a ∷ n ∷ t ∷ rest) ≡ drop n rest =
      ap (λ k. drop k (a ∷ n ∷ t ∷ rest)) {y = suc (suc (suc n))} (omega arith) in
    ground (arith, e, p, q, take-append-drop n rest)

-- With reports of at least three bytes the parser returns, and reads no byte outside the report. A
-- payload is accepted only from a long enough report with the expected id, whose second byte is the
-- length of the payload, not 0 and not above the size less 3, whose third is the target, and which
-- goes on with the payload. A report is passed over only for a length byte 0, and refused only for
-- being too short, for its id, or for its length byte.
pub parse_in_report-Describes :
    (raw : Bytes) (cfg : HidReportConfig)
    → 3 ≤ cfg.report_size
    → Returns (Describes cfg raw) (parse_in_report raw cfg)
unfolding parse_in_report
parse_in_report-Describes [] cfg h = ground arith
parse_in_report-Describes (a ∷ []) cfg h = ground arith
parse_in_report-Describes (a ∷ n ∷ []) cfg h = ground arith
parse_in_report-Describes (a ∷ n ∷ t ∷ rest) cfg h =
    elim (Bool-cases (ltb (length (a ∷ n ∷ t ∷ rest)) cfg.report_size)) [
      | inl e ↦ rw e (ground arith)
      | inr e ↦ elim (Bool-cases (a == cfg.in_report_id)) [
        | inr f ↦ ground arith
        | inl f ↦ elim (Bool-cases (n == 0)) [
          | inl g ↦ ground arith
          | inr g ↦ elim (Bool-cases (ltb (cfg.report_size - 3) n)) [
            | inl i ↦ rw (e, f, g, i) (λ m q. ground arith)
            | inr i ↦
                let c : length (take n rest) ≡ n = cut_payload n rest (ground arith) in
                rw (e, f, g, i)
                  (
                    whole a n t rest cfg.in_report_id (ground arith) (ground arith),
                    ground (arith, c),
                    ground (arith, c),
                    ground arith,
                  )
          ]
        ]
      ]
    ]

-- A report of the firmware is accepted with its payload and target, when the payload is not empty and
-- fits, whatever follows it.
pub parse_in_report-in_report :
    (cfg : HidReportConfig) (target : ℕ) (payload pad : Bytes)
    → 0 < length payload
    → length payload ≤ cfg.report_size - 3
    → cfg.report_size ≤ length (in_report cfg.in_report_id target payload pad)
    → parse_in_report (in_report cfg.in_report_id target payload pad) cfg
      ≡ done (accepted payload target)
unfolding parse_in_report
parse_in_report-in_report cfg target payload pad z h s = ground (arith, take_front payload pad)
  where
    take_front : (xs ys : Bytes) → take (length xs) (xs ++ ys) ≡ xs
    take_front [] ys = refl
    take_front (x ∷ xs) ys = ap (λ l. x ∷ l) (take_front xs ys)
