-- ===== src/Race/Service/Sequence.antt =====
-- Which lines of a sequence are sent.
use usb_hid_tool.Prelude.{
  ℕ, suc, ◌+◌, ◌≡◌, ◌⊎◌, ap, Bool, true, false, ◌||◌, List, [], ◌∷◌, ◌++◌, none, some, length,
  arith, inl, inr,
}
use usb_hid_tool.Run.{done, All}
use usb_hid_tool.Race.Packet.{Bytes}
use usb_hid_tool.Race.Transport.{Hidapi}
use usb_hid_tool.Race.Command.{Qt, CommandError, failed, parsed, parse_hex_string}
use usb_hid_tool.Race.Service.{
  RaceService, Lines, parse_failed, send_single, send_line, send_lines, send_sequence,
}

module _ {H W : Type 0} (api : Hidapi H W) where
  -- The commands are sent one after the other, each without an error.
  abbrev Sends : List Bytes → ℕ → RaceService H W → RaceService H W → Type 0
  Sends [] target s s' = s ≡ s'
  Sends (cmd ∷ cmds) target s s' =
      (v : RaceService H W) × ((send_single api cmd target s ≡ done (none, v))
        × Sends cmds target v s')

  module _ {T : Type 0} (qt : Qt T) (lines : Lines T) where
    abbrev skipped : T → Bool
    skipped line = lines.is_blank line || lines.is_comment line

    -- A line is skipped, or holds a command.
    abbrev pub IsReadable : T → Type 0
    IsReadable line =
        (skipped (lines.trimmed line) ≡ true)
        ⊎ ((skipped (lines.trimmed line) ≡ false)
            × ((cmd : Bytes) × (parse_hex_string qt (lines.trimmed line) ≡ parsed cmd)))

    -- The commands of readable lines, in order.
    abbrev commands : (ls : List T) → All IsReadable ls → List Bytes
    commands [] h = []
    commands (l ∷ ls) (inl skip, h) = commands ls h
    commands (l ∷ ls) (inr (_, (cmd, _)), h) = cmd ∷ commands ls h

    send_lines-Sends :
        (i : ℕ) (ls : List T) (target : ℕ) (s s' : RaceService H W) (h : All IsReadable ls)
        → Sends (commands ls h) target s s'
        → send_lines api qt lines i ls target s ≡ done (none, s')
    unfolding send_lines send_line
    send_lines-Sends i [] target s s' h q = ap (λ v. done (none, v)) q
    send_lines-Sends i (l ∷ ls) target s s' (inl skip, h) q =
        ground (arith, skip, send_lines-Sends (i + 1) ls target s s' h q)
    send_lines-Sends i (l ∷ ls) target s s' (inr (go, (cmd, e)), h) (v, (one, q)) =
        ground (arith, go, e, one, send_lines-Sends (i + 1) ls target v s' h q)

    -- When each line of a sequence is blank, a comment or a command, and each command can be sent
    -- after those before it, the sequence succeeds: it sends exactly the commands, in order.
    pub send_sequence-Sends :
        (ls : List T) (target : ℕ) (s s' : RaceService H W) (h : All IsReadable ls)
        → Sends (commands ls h) target s s'
        → send_sequence api qt lines ls target s ≡ done (none, s')
    unfolding send_sequence
    send_sequence-Sends ls target s s' h q = send_lines-Sends 0 ls target s s' h q

    send_lines_stop :
        (i : ℕ) (ls rest : List T) (bad : T) (x : CommandError T) (target : ℕ)
        (s s' : RaceService H W) (h : All IsReadable ls)
        → Sends (commands ls h) target s s'
        → skipped (lines.trimmed bad) ≡ false
        → parse_hex_string qt (lines.trimmed bad) ≡ failed x
        → send_lines api qt lines i (ls ++ (bad ∷ rest)) target s
          ≡ done (some (parse_failed (i + (length ls + 1)) x), s')
    unfolding send_lines send_line
    send_lines_stop i [] rest bad x target s s' h q b p =
        let n : i + 1 ≡ i + (0 + 1) = omega arith in ground (arith, b, p, q, n)
    send_lines_stop i (l ∷ ls) rest bad x target s s' (inl skip, h) q b p =
        let n : i + 1 + (length ls + 1) ≡ i + (suc (length ls) + 1) = omega arith in
        ground (arith, skip, n, send_lines_stop (i + 1) ls rest bad x target s s' h q b p)
    send_lines_stop i (l ∷ ls) rest bad x target s s' (inr (go, (cmd, e)), h) (v, (one, q)) b p =
        let n : i + 1 + (length ls + 1) ≡ i + (suc (length ls) + 1) = omega arith in
        ground (arith, go, e, one, n, send_lines_stop (i + 1) ls rest bad x target v s' h q b p)

    -- A line that is no command stops the sequence: the commands before it have been sent, none
    -- behind it is, and the error has the number of the line, from 1.
    pub send_sequence_stop :
        (ls rest : List T) (bad : T) (x : CommandError T) (target : ℕ) (s s' : RaceService H W)
        (h : All IsReadable ls)
        → Sends (commands ls h) target s s'
        → skipped (lines.trimmed bad) ≡ false
        → parse_hex_string qt (lines.trimmed bad) ≡ failed x
        → send_sequence api qt lines (ls ++ (bad ∷ rest)) target s
          ≡ done (some (parse_failed (length ls + 1) x), s')
    unfolding send_sequence
    send_sequence_stop ls rest bad x target s s' h q b p =
        let n : 0 + (length ls + 1) ≡ length ls + 1 = omega arith in
        ground (arith, n, send_lines_stop 0 ls rest bad x target s s' h q b p)
