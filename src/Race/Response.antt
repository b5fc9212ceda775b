-- ===== src/Race/Response.antt =====
-- src/service/serial_number_service.cpp: `SerialNumberService::checkRaceGeneralSuccess`.
use usb_hid_tool.Prelude.{
  ℕ, ◌≡◌, ◌≢◌, ◌≤◌, true, not, ◌||◌, List, ◌∷◌, ltb, ◌==◌, if◌then◌else◌, length, arith, Bool-cases,
  inl, inr,
}
use usb_hid_tool.Run.{Run, done, ◌>>=◌, read, Returns}

abbrev pub Bytes : Type 0
Bytes = List ℕ

pub data Check : Type 0 where
  success too_short wrong_type id_mismatch : Check
  status_fail : ℕ → Check

unfoldable pub check_race_general_success : Bytes → Bytes → Run Check
check_race_general_success request response =
    if ltb (length response) 7 || ltb (length request) 6 then done too_short else (do
      r0 ← read response 0
      r1 ← read response 1
      if not (r0 == 0x05) || not (r1 == 0x5B) then done wrong_type else (do
        r4 ← read response 4
        q4 ← read request 4
        r5 ← read response 5
        q5 ← read request 5
        if not (r4 == q4) || not (r5 == q5) then done id_mismatch else (do
          status ← read response 6
          if not (status == 0) then done (status_fail status) else done success)))

-- A response of type 0x5B that carries the command of the request and the status.
abbrev pub IsResponse : Bytes → Bytes → ℕ → Type 0
IsResponse request response status =
    (read response 0 ≡ done 0x05)
    × (read response 1 ≡ done 0x5B)
    × (read response 4 ≡ read request 4)
    × (read response 5 ≡ read request 5)
    × (read response 6 ≡ done status)

-- What holds of a response by the outcome of the check.
abbrev pub Tells : Bytes → Bytes → Check → Type 0
Tells request response success = IsResponse request response 0
Tells request response (status_fail s) = IsResponse request response s × (s ≢ 0)
Tells request response too_short = (7 ≤ length response) → (6 ≤ length request) → ⊥
Tells request response wrong_type = read response 0 ≡ done 0x05 → read response 1 ≢ done 0x5B
Tells request response id_mismatch =
    read response 4 ≡ read request 4 → read response 5 ≢ read request 5

short-Tells :
    (request response : Bytes)
    → (ltb (length response) 7 || ltb (length request) 6) ≡ true
    → Returns (Tells request response) (check_race_general_success request response)
unfolding check_race_general_success
short-Tells request response e = rw e (λ p q. ground arith)

long-Tells :
    (request response : Bytes)
    → 6 ≤ length request
    → 7 ≤ length response
    → Returns (Tells request response) (check_race_general_success request response)
unfolding check_race_general_success
long-Tells (a ∷ b ∷ c ∷ d ∷ e ∷ f ∷ q) (k ∷ l ∷ m ∷ n ∷ o ∷ p ∷ s ∷ r) h g = ground arith
long-Tells request response h g = absurd (ground arith)

-- The check returns, whatever bytes the request and the response hold, and reads none outside of
-- them. It succeeds only for a response of type 0x5B with the two command bytes of the request and
-- the status 0; each failure names what does not hold, and a failed status is the status byte of
-- such a response.
pub check_race_general_success-Tells :
    (request response : Bytes)
    → Returns (Tells request response) (check_race_general_success request response)
check_race_general_success-Tells request response =
    elim (Bool-cases (ltb (length response) 7 || ltb (length request) 6)) [
      | inl e ↦ short-Tells request response e
      | inr e ↦ long-Tells request response (ground arith) (ground arith)
    ]
