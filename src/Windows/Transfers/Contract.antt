-- ===== src/Windows/Transfers/Contract.antt =====
-- What writes and reads of the Windows backend move and return.
use usb_hid_tool.Prelude.{
  leb, Option, ℕ, zero, suc, ◌-◌, ◌≤◌, ◌≡◌, ◌≢◌, ◌⊎◌, refl, sym, ap, subst, max, true, false, [],
  ◌∷◌, ◌++◌, none, some, length, length-append, arith, inl, inr, ◌<◌, Bool-cases, Option-cases,
}
use usb_hid_tool.Prelude.Int.{pos, minus_one, is_neg, to_nat}
use usb_hid_tool.Windows.Transfers.{
  Bytes, no_memory, Error, winapi, write_file, write_wait, write_result, Start, failed, pending,
  finished, Windows, Device, Outcome, outcome, with_error, zeros, padded, Buffer, output_buffer,
  feature_buffer, write_buffer, finish_write, write_bytes, hid_write,
}

-- -1 and an error, or a number and none.
abbrev pub Reported : {W : Type 0} → Outcome W → Type 0
Reported s =
    ((s.result ≡ minus_one) × (s.dev.last_error ≢ none))
    ⊎ ((is_neg s.result ≡ false) × (s.dev.last_error ≡ none))

length-zeros : (n : ℕ) → length (zeros n) ≡ n
length-zeros zero = refl
length-zeros (suc n) = omega (arith, length-zeros n)

length-padded : (bytes : Bytes) (size : ℕ) → length (padded bytes size) ≡ max (length bytes) size
length-padded bytes size =
    omega
      (arith, length-append bytes (zeros (size - length bytes)), length-zeros (size - length bytes))

padded-long : (bytes : Bytes) (size : ℕ) → size ≤ length bytes → padded bytes size ≡ bytes
padded-long bytes size h = let e : size - length bytes ≡ 0 = omega arith in rw e (append_nil bytes)
  where
    append_nil : (xs : Bytes) → xs ++ [] ≡ xs
    append_nil [] = refl
    append_nil (x ∷ xs) = ap (λ l. x ∷ l) (append_nil xs)

module _ {W : Type 0} (os : Windows W) where
  -- `WriteFile` takes these bytes in the state `w`, and `n` bytes are written, at once or later.
  abbrev Wrote : W → Bytes → ℕ → Type 0
  Wrote w bytes n =
      ((os.write_file w bytes).0 ≡ finished n)
      ⊎ (((os.write_file w bytes).0 ≡ pending)
          × ((os.wait_write (os.write_file w bytes).1).0 ≡ true)
          × ((os.write_overlapped (os.wait_write (os.write_file w bytes).1).1).0 ≡ some n))

  -- A state that follows the call of `WriteFile` with these bytes in the state `w`.
  abbrev FollowsWrite : W → Bytes → W → Type 0
  FollowsWrite w bytes v =
      (v ≡ (os.write_file w bytes).1)
      ⊎ ((v ≡ (os.wait_write (os.write_file w bytes).1).1)
          ⊎ (v ≡ (os.write_overlapped (os.wait_write (os.write_file w bytes).1).1).1))

  -- The result of a write that hands over `full` in the state `w`: an error when nothing is written.
  abbrev Failed : Bytes → W → Outcome W → Type 0
  Failed full w s =
      (s.result ≡ minus_one) × (s.dev.last_error ≢ none) × ((n : ℕ) → Wrote w full n → ⊥)

  abbrev Succeeded : Bytes → W → Outcome W → Type 0
  Succeeded full w s =
      (is_neg s.result ≡ false) × (s.dev.last_error ≡ none) × Wrote w full (to_nat s.result)

  abbrev pub Written : Bytes → W → Outcome W → Type 0
  Written full w s = FollowsWrite w full s.world × (Failed full w s ⊎ Succeeded full w s)

  Failed-Written :
      (full bytes : Bytes) (w v : W) (dev : Device) (x : Error) (s : Outcome W)
      → s ≡ outcome minus_one bytes (with_error dev (some x)) v
      → FollowsWrite w full v
      → ((n : ℕ) → Wrote w full n → ⊥)
      → Written full w s
  Failed-Written full bytes w v dev x s e f n =
      subst (Written full w) (sym e) (f, inl (refl, ground arith, n))

  Succeeded-Written :
      (full bytes : Bytes) (w v : W) (dev : Device) (n : ℕ) (s : Outcome W)
      → s ≡ outcome (pos n) bytes dev v
      → FollowsWrite w full v
      → dev.last_error ≡ none
      → Wrote w full n
      → Written full w s
  Succeeded-Written full bytes w v dev n s e f none_left k =
      subst (Written full w) (sym e) (f, inr (refl, none_left, k))

  -- The outcome of an overlapped write, by the two answers of Windows.
  finish_write-Written :
      (dev : Device) (bytes full : Bytes) (w : W)
      → dev.last_error ≡ none
      → (os.write_file w full).0 ≡ pending
      → Written full w (finish_write os dev bytes (os.write_file w full).1)
  unfolding finish_write
  finish_write-Written dev bytes full w e p =
      let w' : W = (os.write_file w full).1 in
      elim (Bool-cases (os.wait_write w').0) [
        | inr f ↦
            Failed-Written full bytes w (os.wait_write (os.write_file w full).1).1 dev
              (winapi write_wait) (finish_write os dev bytes (os.write_file w full).1)
              (ground (arith, f)) (inr (inl refl))
              (λ n. elim [ inl k ↦ ground (arith, p, k) | inr k ↦ ground (arith, f, k) ])
        | inl t ↦ elim (Option-cases (os.write_overlapped (os.wait_write w').1).0) [
          | inl o ↦
              Failed-Written full bytes w
                (os.write_overlapped (os.wait_write (os.write_file w full).1).1).1 dev
                (winapi write_result) (finish_write os dev bytes (os.write_file w full).1)
                (ground (arith, t, o)) (inr (inr refl))
                (λ n. elim [ inl k ↦ ground (arith, p, k) | inr k ↦ ground (arith, o, k) ])
          | inr (n, o) ↦
              Succeeded-Written full bytes w
                (os.write_overlapped (os.wait_write (os.write_file w full).1).1).1 dev n
                (finish_write os dev bytes (os.write_file w full).1) (ground (arith, t, o))
                (inr (inr refl)) e (inr (p, t, o))
        ]
      ]

  write_bytes-Written :
      (dev : Device) (bytes full : Bytes) (w : W)
      → dev.last_error ≡ none
      → Written full w (write_bytes os dev bytes full w)
  unfolding write_bytes
  write_bytes-Written dev bytes full w e = started (os.write_file w full).0 refl
    where
      started :
          (x : Start ℕ)
          → (os.write_file w full).0 ≡ x
          → Written full w (write_bytes os dev bytes full w)
      started failed q =
          Failed-Written full bytes w (os.write_file w full).1 dev (winapi write_file)
            (write_bytes os dev bytes full w) (ground (arith, q)) (inl refl)
            (λ n. elim [ inl k ↦ ground (arith, q, k) | inr k ↦ ground (arith, q, k) ])
      started pending q =
          let same : finish_write os dev bytes (os.write_file w full).1
              ≡ write_bytes os dev bytes full w =
            ground (arith, q) in
          subst (Written full w) same (finish_write-Written dev bytes full w e q)
      started (finished n) q =
          Succeeded-Written full bytes w (os.write_file w full).1 dev n
            (write_bytes os dev bytes full w) (ground (arith, q)) (inl refl) e (inl q)

  -- No memory, or the data padded to `size` bytes.
  abbrev pub Padded : Bytes → ℕ → W → Buffer W → Type 0
  Padded bytes size w buf =
      ((buf.bytes ≡ none) × (buf.dev.last_error ≡ some no_memory))
      ⊎ ((buf.bytes ≡ some (padded bytes size))
          × (buf.dev.last_error ≡ none)
          × ((buf.world ≡ w) ⊎ (buf.world ≡ (os.malloc w).1)))

  pub output_buffer-Padded :
      (dev : Device) (bytes : Bytes) (w : W)
      → dev.last_error ≡ none
      → Padded bytes dev.output_report_length w (output_buffer os dev bytes w)
  unfolding output_buffer
  output_buffer-Padded dev bytes w e = ground (arith, padded-long bytes dev.output_report_length)

  pub feature_buffer-Padded :
      (dev : Device) (bytes : Bytes) (w : W)
      → dev.last_error ≡ none
      → Padded bytes dev.feature_report_length w (feature_buffer os dev bytes w)
  unfolding feature_buffer
  feature_buffer-Padded dev bytes w e = ground (arith, padded-long bytes dev.feature_report_length)

  -- Memory is short: the data are shorter than the longest output report, there is no buffer yet, and
  -- `malloc` has no memory for one.
  abbrev pub IsShort : Device → Bytes → W → Type 0
  IsShort dev bytes w =
      (length bytes < dev.output_report_length) × (dev.write_buf ≡ none) × ((os.malloc w).0 ≡ false)

  -- The state in which `WriteFile` is called: that before the write, or that behind the allocation of
  -- the buffer.
  abbrev pub IsStart : W → W → Type 0
  IsStart w v = (v ≡ w) ⊎ (((os.malloc w).0 ≡ true) × (v ≡ (os.malloc w).1))

  -- The buffer that is sent, by whether memory is short.
  record Provided (dev : Device) (bytes : Bytes) (w : W) (buf : Buffer W) : Type 0 where
    without :
        IsShort dev bytes w
        → (buf.bytes ≡ none) × (buf.dev.last_error ≡ some no_memory) × (buf.world ≡ (os.malloc w).1)
    with_data :
        (IsShort dev bytes w → ⊥)
        → (buf.bytes ≡ some (padded bytes dev.output_report_length))
          × (buf.dev.last_error ≡ none)
          × IsStart w buf.world

  output_buffer-Provided :
      (dev : Device) (bytes : Bytes) (w : W)
      → dev.last_error ≡ none
      → Provided dev bytes w (output_buffer os dev bytes w)
  unfolding output_buffer
  output_buffer-Provided dev bytes w e = record {
    without = λ h. ground (arith, h);
    with_data = λ h. elim (Bool-cases (leb dev.output_report_length (length bytes))) [
      | inl l ↦ (
        ground (arith, l, padded-long bytes dev.output_report_length (ground (arith, l))),
        ground (arith, l, e),
        ground (arith, l),
      )
      | inr l ↦ elim (Option-cases dev.write_buf) [
        | inr (b, k) ↦ (ground (arith, l, k), ground (arith, l, k, e), ground (arith, l, k))
        | inl k ↦ elim (Bool-cases (os.malloc w).0) [
          | inl m ↦ (ground (arith, l, k, m), ground (arith, l, k, m, e), ground (arith, l, k, m))
          | inr m ↦ absurd (h (ground (arith, l), k, m))
        ]
      ]
    ];
  }

  -- A write of at least one byte. When memory is short (`IsShort`) it returns -1 with the error for
  -- that, and Windows is asked for nothing but memory. Else WriteFile is called with the data, padded
  -- with zeros to the longest output report, in the state before the write or behind the allocation
  -- of the buffer. The result is -1, with an error, exactly when nothing is reported as written, at
  -- once or after the wait; else it is the number of bytes that Windows reports, without an error.
  pub hid_write-Written :
      (dev : Device) (b : ℕ) (bs : Bytes) (w : W)
      → let s = hid_write os dev (some (b ∷ bs)) w in
        let full = padded (b ∷ bs) dev.output_report_length in
        (length full ≡ max (length (b ∷ bs)) dev.output_report_length)
        × (IsShort dev (b ∷ bs) w
            → (s.result ≡ minus_one)
              × (s.dev.last_error ≡ some no_memory)
              × (s.world ≡ (os.malloc w).1))
        × ((IsShort dev (b ∷ bs) w → ⊥) → (v : W) × IsStart w v × Written full v s)
  unfolding hid_write write_buffer
  hid_write-Written dev b bs w =
      let started : Device = with_error dev none in
      let buf : Buffer W = output_buffer os started (b ∷ bs) w in
      let p : Provided started (b ∷ bs) w buf = output_buffer-Provided started (b ∷ bs) w refl in
      (
        length-padded (b ∷ bs) dev.output_report_length,
        λ h.
            let q = p.without h in
            (ground (arith, q.0), ground (arith, q.0, q.1), ground (arith, q.0, q.2)),
        λ h.
            let q = p.with_data h in
            (
              buf.world,
              q.2,
              subst
                  (λ (o : Option Bytes).
                    Written (padded (b ∷ bs) dev.output_report_length) buf.world (elim o [
                      | none ↦ outcome minus_one (b ∷ bs) buf.dev buf.world
                      | some full ↦ write_bytes os buf.dev (b ∷ bs) full buf.world
                    ]))
                  (sym q.0)
                  (write_bytes-Written buf.dev (b ∷ bs) (padded (b ∷ bs) dev.output_report_length)
                    buf.world q.1),
            ),
      )
