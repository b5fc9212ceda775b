-- ===== src/Race/Packet/RoundTrip.antt =====
-- Reports that are sent and parsed again, and commands that do not fit.
use usb_hid_tool.Prelude.{
  ℕ, suc, ◌+◌, ◌-◌, ◌%◌, ◌≤◌, ◌<◌, ◌≡◌, ap, [], ◌∷◌, ◌++◌, length, take, length-append, length-take,
  take_all, arith,
}
use usb_hid_tool.Run.{done, ◌>>=◌, append_assoc}
use usb_hid_tool.Race.Packet.{
  Bytes, HidReportConfig, filled, payload_len, build_out_report, accepted, parse_in_report,
}
use usb_hid_tool.Race.Packet.Build.{length-filled, build_out_report-written}
use usb_hid_tool.Race.Packet.Parse.{in_report, parse_in_report-in_report}

-- The length byte of a sent report counts the target too, that of a received one does not. So a sent
-- report with the id of received ones, parsed, gives the target and the command, and one byte 0
-- behind it. The command and the target must fit, and their number must fit a byte.
pub parse_in_report-build_out_report :
    (cmd : Bytes) (target : ℕ) (cfg : HidReportConfig)
    → cfg.in_report_id ≡ cfg.out_report_id
    → length cmd + 1 ≤ cfg.report_size - 3
    → length cmd + 1 < 256
    → (build_out_report cmd target cfg >>= λ raw. parse_in_report raw cfg)
      ≡ done (accepted (cmd ++ (0 ∷ [])) target)
parse_in_report-build_out_report cmd target cfg i h b =
    let n : length (cmd ++ (0 ∷ [])) ≡ payload_len cmd cfg % 256 =
      omega (arith, length-append cmd (0 ∷ [])) in
    let m : payload_len cmd cfg - 1 ≡ length cmd = omega arith in
    let k : ℕ = cfg.report_size - 4 - length cmd in
    let f : filled (cfg.report_size - 3 - (payload_len cmd cfg - 1)) ≡ 0 ∷ filled k =
      ap filled {y = suc k} (omega arith) in
    let t : take (payload_len cmd cfg - 1) cmd ≡ cmd =
      take_all (payload_len cmd cfg - 1) cmd (omega arith) in
    let raw : Bytes = in_report cfg.in_report_id target (cmd ++ (0 ∷ [])) (filled k) in
    let built : build_out_report cmd target cfg ≡ done raw = ground (
      arith,
      build_out_report-written cmd target cfg (omega arith),
      n,
      f,
      t,
      i,
      append_assoc cmd (0 ∷ []) (filled k),
    ) in
    rw built (
      parse_in_report-in_report cfg target (cmd ++ (0 ∷ [])) (filled k)
        (omega (arith, length-append cmd (0 ∷ []))) (omega (arith, length-append cmd (0 ∷ [])))
        (omega (
          arith,
          length-append cmd (0 ∷ []),
          length-append (cmd ++ (0 ∷ [])) (filled k),
          length-filled k,
        )))

take-take : (n : ℕ) (xs : Bytes) → take n (take n xs) ≡ take n xs
take-take n xs = take_all n (take n xs) (omega (arith, length-take n xs))

-- A command of more than the report size less 4 bytes is cut to that length without an error.
build_out_report-cut :
    (cmd : Bytes) (target : ℕ) (cfg : HidReportConfig)
    → 4 ≤ cfg.report_size
    → cfg.report_size - 4 ≤ length cmd
    → build_out_report cmd target cfg ≡ build_out_report (take (cfg.report_size - 4) cmd) target cfg
build_out_report-cut cmd target cfg h c =
    let short : Bytes = take (cfg.report_size - 4) cmd in
    let l : length short ≡ cfg.report_size - 4 =
      omega (arith, length-take (cfg.report_size - 4) cmd) in
    let p : payload_len cmd cfg ≡ cfg.report_size - 3 = omega arith in
    let q : payload_len short cfg ≡ cfg.report_size - 3 = omega arith in
    let r : payload_len cmd cfg - 1 ≡ cfg.report_size - 4 = omega arith in
    let s : payload_len short cfg - 1 ≡ cfg.report_size - 4 = omega arith in
    ground (
      arith,
      build_out_report-written cmd target cfg (omega arith),
      build_out_report-written short target cfg (omega arith),
      p,
      q,
      r,
      s,
      take-take (cfg.report_size - 4) cmd,
    )
