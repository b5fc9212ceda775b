-- ===== src/Race/Packet/Build.antt =====
-- The layout of the reports that are sent.
use usb_hid_tool.Prelude.{
  ℕ, zero, suc, ◌+◌, ◌-◌, ◌%◌, ◌≤◌, ◌≡◌, refl, ap, ap₂, ◌∙◌, [], ◌∷◌, ◌++◌, length, min, take,
  length-append, length-take, arith,
}
use usb_hid_tool.Run.{done, read_at, append_assoc}
use usb_hid_tool.Race.Packet.{
  Bytes, HidReportConfig, filled, write, copy_command, payload_len, build_out_report,
}

pub length-filled : (n : ℕ) → length (filled n) ≡ n
length-filled zero = refl
length-filled (suc n) = omega (arith, length-filled n)

write_at :
    (front rest : Bytes) (x b m : ℕ)
    → m ≡ length front
    → write (front ++ (x ∷ rest)) m b ≡ done (front ++ (b ∷ rest))
write_at [] rest x b zero e = refl
write_at [] rest x b (suc m) e = absurd (omega arith)
write_at (y ∷ front) rest x b zero e = absurd (omega arith)
write_at (y ∷ front) rest x b (suc m) e = rw (write_at front rest x b m (omega arith)) refl

-- The copy of `n` bytes of the command behind what is written already.
copy_command-take :
    (n i : ℕ) (before cmd head : Bytes) (k : ℕ)
    → length before ≡ i
    → length head ≡ 3 + i
    → n ≤ length cmd
    → copy_command (before ++ cmd) i n (head ++ filled (n + k))
      ≡ done (head ++ (take n cmd ++ filled k))
unfolding copy_command
copy_command-take zero i before cmd head k l h m = let e : 0 + k ≡ k = omega arith in rw e refl
copy_command-take (suc n) i before [] head k l h m = absurd (omega arith)
copy_command-take (suc n) i before (b ∷ cmd) head k l h m =
    let ih =
      copy_command-take n (suc i) (before ++ (b ∷ [])) cmd (head ++ (b ∷ [])) k
        (omega (arith, length-append before (b ∷ []))) (omega (arith, length-append head (b ∷ [])))
        (omega arith) in
    let e : suc n + k ≡ suc (n + k) = omega arith in
    let r = read_at before (b ∷ cmd) 0 i (omega arith) in
    let w = write_at head (filled (n + k)) 0 b (3 + i) (omega arith) in
    let a = append_assoc before (b ∷ []) cmd in
    let c = append_assoc head (b ∷ []) (filled (n + k)) in
    let d = append_assoc head (b ∷ []) (take n cmd ++ filled k) in
    ground (arith, e, r, w, a, c, d, ih)

-- The report in terms of the number of payload bytes.
pub build_out_report-written :
    (cmd : Bytes) (target : ℕ) (cfg : HidReportConfig)
    → 3 ≤ cfg.report_size
    → build_out_report cmd target cfg
      ≡ done (
          cfg.out_report_id
            ∷ (payload_len cmd cfg % 256)
            ∷ target
            ∷ take (payload_len cmd cfg - 1) cmd
          ++ filled (cfg.report_size - 3 - (payload_len cmd cfg - 1)))
unfolding build_out_report
build_out_report-written cmd target cfg h =
    let n : ℕ = payload_len cmd cfg - 1 in
    let k : ℕ = cfg.report_size - 3 - n in
    let head : Bytes = cfg.out_report_id ∷ (payload_len cmd cfg % 256) ∷ target ∷ [] in
    let e : filled cfg.report_size ≡ 0 ∷ 0 ∷ 0 ∷ filled (n + k) =
      ap filled {y = suc (suc (suc (n + k)))} (omega arith) in
    let c = copy_command-take n 0 [] cmd head k refl refl (omega arith) in rw e c

-- Cutting at the number of bytes that are copied is cutting at the room that is used.
take-min : (n m : ℕ) (xs : Bytes) → m ≡ min (length xs) n → take m xs ≡ take n xs
take-min zero m [] e = let z : m ≡ 0 = omega arith in rw z refl
take-min (suc n) m [] e = let z : m ≡ 0 = omega arith in rw z refl
take-min zero m (x ∷ xs) e = let z : m ≡ 0 = omega arith in rw z refl
take-min (suc n) zero (x ∷ xs) e = absurd (omega arith)
take-min (suc n) (suc m) (x ∷ xs) e = ap (◌∷◌ x) (take-min n m xs (omega arith))

-- With a report size of at least 3 a report is built without an index outside of it: the report id;
-- as a byte, the smaller of the number of command bytes and one and of the report size less 3; the
-- target; the first `reportSize - 4` bytes of the command, or all of them if there are fewer; and
-- zeros up to the report size.
pub build_out_report-layout :
    (cmd : Bytes) (target : ℕ) (cfg : HidReportConfig)
    → 3 ≤ cfg.report_size
    → build_out_report cmd target cfg
      ≡ done (
          cfg.out_report_id
            ∷ (min (length cmd + 1) (cfg.report_size - 3) % 256)
            ∷ target
            ∷ take (cfg.report_size - 4) cmd
          ++ filled (cfg.report_size - 3 - length (take (cfg.report_size - 4) cmd)))
build_out_report-layout cmd target cfg h =
    let n : ℕ = payload_len cmd cfg - 1 in
    let room : ℕ = cfg.report_size - 4 in
    let t : take n cmd ≡ take room cmd = take-min room n cmd (omega arith) in
    let l : n ≡ length (take room cmd) = omega (arith, length-take room cmd) in
    build_out_report-written cmd target cfg h
    ∙ ap₂
        (λ body k. done (
          cfg.out_report_id ∷ (payload_len cmd cfg % 256) ∷ target ∷ body
          ++ filled (cfg.report_size - 3 - k)))
        t l
