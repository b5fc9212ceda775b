-- ===== src/Windows/Transfers/Pending.antt =====
-- Reads of the Windows backend: what one returns, and how a pending one is resumed.
use usb_hid_tool.Prelude.{
  ℕ, zero, suc, ◌≤◌, ◌≡◌, ◌≢◌, ◌⊎◌, refl, sym, ap, subst, min, Bool, true, false, [], ◌∷◌, ◌++◌,
  Option, none, some, ◌==◌, if◌then◌else◌, length, take, drop, length-take, arith, inl, inr,
}
use usb_hid_tool.Prelude.Int.{ℤ, pos, minus_one}
use usb_hid_tool.Run.{done, ◌>>=◌, Returns}
use usb_hid_tool.Windows.Transfers.{
  Bytes, winapi, read_file, read_result, Start, failed, pending, finished, Windows, Device, Outcome,
  outcome, zeros, overlay, hid_read_error, deliver, complete_read, await_read, start_read,
  hid_read_timeout,
}

-- -1 with nothing stored and a read error, or the number of bytes stored and no read error; no read
-- stays pending that has delivered bytes.
abbrev pub ReadOutcome : {W : Type 0} → ℕ → Outcome W → Type 0
ReadOutcome size o =
    (((o.result ≡ minus_one) × (o.stored ≡ []) × (hid_read_error o.dev ≢ none))
      ⊎ ((o.result ≡ pos (length o.stored))
          × (length o.stored ≤ size)
          × (hid_read_error o.dev ≡ none)))
    × (o.stored ≢ [] → o.dev.read_pending ≡ false)

-- A report as it is delivered: without a leading report number 0.
abbrev pub report : Bytes → Bytes
report [] = []
report (b ∷ bs) = if b == 0 then bs else b ∷ bs

abbrev pub cut : ℕ → Bytes → Bytes
cut size bytes = take (min (length bytes) size) bytes

take-overlay : (n : ℕ) (xs ys : Bytes) → n ≤ length xs → take n (xs ++ ys) ≡ take n xs
take-overlay zero xs ys h = refl
take-overlay (suc n) [] ys h = absurd (omega arith)
take-overlay (suc n) (x ∷ xs) ys h = ap (λ l. x ∷ l) (take-overlay n xs ys (omega arith))

-- The device after a finished read.
abbrev pub finished_device : Device → Bytes → Device
finished_device dev bytes = record dev {
  read_pending = false;
  read_buf = overlay bytes dev.read_buf;
}

if_both {ℓ} :
    {A : Type ℓ} (P : A → Type 0) (x y : A) (b : Bool) → P x → P y → P (if b then x else y)
if_both P x y true p q = p
if_both P x y false p q = q

module _ {W : Type 0} (os : Windows W) where
  complete_read-report :
      (dev : Device) (bytes : Bytes) (size : ℕ) (w : W)
      → complete_read os dev bytes size w
        ≡ done (
            outcome
              (pos (length (cut size (report bytes))))
              (cut size (report bytes))
              (finished_device dev bytes)
              w)
  unfolding complete_read deliver
  complete_read-report dev [] size w = let e : min 0 size ≡ 0 = omega arith in rw e refl
  complete_read-report dev (b ∷ bs) size w =
      let old : Bytes = drop (suc (length bs)) dev.read_buf in
      ground (
        arith,
        take-overlay (min (length bs) size) bs old,
        take-overlay (min (suc (length bs)) size) (b ∷ bs) old,
        length-take (min (length bs) size) bs,
        length-take (min (suc (length bs)) size) (b ∷ bs),
      )

  complete_read-ReadOutcome :
      (dev : Device) (bytes : Bytes) (size : ℕ) (w : W)
      → hid_read_error dev ≡ none
      → Returns (ReadOutcome size) (complete_read os dev bytes size w)
  unfolding hid_read_error
  complete_read-ReadOutcome dev bytes size w e =
      subst (Returns (ReadOutcome size)) (sym (complete_read-report dev bytes size w)) (
        inr (refl, omega (arith, length-take (min (length (report bytes)) size) (report bytes)), e),
        λ _. refl,
      )

  await_read-ReadOutcome :
      (dev : Device) (size : ℕ) (ms : ℤ) (w : W)
      → hid_read_error dev ≡ none
      → Returns (ReadOutcome size) (await_read os dev size ms w)
  unfolding await_read hid_read_error
  await_read-ReadOutcome dev size ms w e =
      if_both (Returns (ReadOutcome size)) _ _ (os.wait_read w ms).0
        (ended (os.read_overlapped (os.wait_read w ms).1).0)
        (inr (refl, omega arith, e), λ n. absurd (n refl))
    where
      ended :
          (r : Option Bytes)
          → Returns (ReadOutcome size) (elim r [
            | none ↦ done (
                outcome minus_one []
                  (record dev { read_pending = false; last_read_error = some (winapi read_result) })
                  (os.read_overlapped (os.wait_read w ms).1).1)
            | some bytes ↦
                complete_read os dev bytes size (os.read_overlapped (os.wait_read w ms).1).1
          ])
      ended none = (inl (refl, refl, λ p. cc), λ _. refl)
      ended (some bytes) = complete_read-ReadOutcome dev bytes size _ e

  start_read-ReadOutcome :
      (dev : Device) (size : ℕ) (ms : ℤ) (w : W)
      → hid_read_error dev ≡ none
      → Returns (ReadOutcome size) (start_read os dev size ms w)
  unfolding start_read hid_read_error
  start_read-ReadOutcome dev size ms w e =
      started (os.read_file w dev.input_report_length).0 (os.read_file w dev.input_report_length).1
    where
      cleared : Device
      cleared = record dev { read_pending = true; read_buf = zeros dev.input_report_length }

      started :
          (r : Start Bytes) (v : W)
          → Returns (ReadOutcome size) (elim r [
            | failed ↦ done (
                outcome minus_one []
                  (record cleared {
                    read_pending = false;
                    last_read_error = some (winapi read_file);
                  })
                  (os.cancel_io v))
            | pending ↦ await_read os cleared size ms v
            | finished bytes ↦ complete_read os cleared bytes size v
          ])
      started failed v = (inl (refl, refl, λ p. cc), λ _. refl)
      started pending v = await_read-ReadOutcome cleared size ms v e
      started (finished bytes) v = complete_read-ReadOutcome cleared bytes size v e

  -- A read returns, and reads no byte outside its buffer. It returns -1 exactly when it leaves a read
  -- error, and stores nothing then; else it returns the number of bytes stored, at most the size of
  -- the buffer. After a read that has stored bytes none is pending.
  pub hid_read_timeout-ReadOutcome :
      (dev : Device) (buffer : Bool) (size : ℕ) (ms : ℤ) (w : W)
      → Returns (ReadOutcome size) (hid_read_timeout os dev buffer size ms w)
  unfolding hid_read_timeout hid_read_error
  hid_read_timeout-ReadOutcome dev buffer size ms w =
      let fresh : Device = record dev { last_read_error = none } in
      ground (
        arith,
        await_read-ReadOutcome fresh size ms w refl,
        start_read-ReadOutcome fresh size ms w refl,
      )

  -- A read that no report ends in time leaves the request pending, and the next read resumes it: it
  -- starts no second request, and delivers the report that the first one receives, without a report
  -- number 0, cut to the size of the buffer.
  pub hid_read_timeout-resumed :
      (dev : Device) (size : ℕ) (ms ms' : ℤ) (w : W) (bytes : Bytes)
      → let w1 = (os.read_file w dev.input_report_length).1 in
        let w2 = (os.wait_read w1 ms).1 in
        let w3 = (os.wait_read w2 ms').1 in
        size ≢ 0
        → dev.read_pending ≡ false
        → (os.read_file w dev.input_report_length).0 ≡ pending
        → (os.wait_read w1 ms).0 ≡ false
        → (os.wait_read w2 ms').0 ≡ true
        → (os.read_overlapped w3).0 ≡ some bytes
        → (hid_read_timeout os dev true size ms w >>= λ o.
            hid_read_timeout os o.dev true size ms' o.world)
          ≡ done (
              outcome
                (pos (length (cut size (report bytes))))
                (cut size (report bytes))
                (finished_device
                  (record dev {
                    last_read_error = none;
                    read_pending = true;
                    read_buf = zeros dev.input_report_length;
                  })
                  bytes)
                (os.read_overlapped w3).1)
  unfolding hid_read_timeout await_read start_read
  hid_read_timeout-resumed dev size ms ms' w bytes n p r f t b =
      let w1 = (os.read_file w dev.input_report_length).1 in
      let w2 = (os.wait_read w1 ms).1 in
      let w3 = (os.wait_read w2 ms').1 in
      let e : (size == 0) ≡ false = ground arith in
      ground (
        arith,
        e,
        p,
        r,
        f,
        t,
        b,
        complete_read-report
            (record dev {
              last_read_error = none;
              read_pending = true;
              read_buf = zeros dev.input_report_length;
            })
            bytes size (os.read_overlapped w3).1,
      )
