-- ===== src/Libusb/Read/Outcome.antt =====
-- What a read of the libusb backend returns, when it returns, and what stops the wait.
use usb_hid_tool.Prelude.{
  ℕ, zero, suc, ◌≤◌, ◌≡◌, ◌≢◌, ◌⊎◌, refl, min, Bool, true, false, not, ◌||◌, List, [], ◌∷◌, Option,
  none, some, ◌==◌, length, take, length-take, arith, Bool-cases, if_false, inl, inr,
}
use usb_hid_tool.Prelude.Int.{ℤ, pos, negsuc}
use usb_hid_tool.Run.{done, Returns, Returns-bind}
use usb_hid_tool.Libusb.Queue.{Bytes, Device, return_queued, return_data, read_callbacks}
use usb_hid_tool.Libusb.Queue.Fifo.{limit, brought, any_stops, AfterAll, read_callbacks-AfterAll}
use usb_hid_tool.Libusb.Read.{
  Answer, woken, timed_out, failed, Wait, Got, got, take_report, is_empty, must_wait, timed_round,
  wait_timed, wait_report, hid_read_timeout, hid_read_error,
}
use usb_hid_tool.Libusb.Read.Waits.{
  Outcome, IsReady, take_report-Outcome, Wakes, woken_up, AfterAll-IsReady, wait_blocking-Outcome,
}

-- A wait of a read with a timeout ends it: the time runs out, the wait fails, or it is woken by what
-- has come in.
abbrev Ends : List Wait → Type 0
Ends [] = ⊥
Ends (w ∷ ws) =
    ((w.answer ≢ woken) ⊎ ((brought w.arrived ≢ []) ⊎ (any_stops w.arrived ≡ true))) ⊎ Ends ws

-- A round ends the read, or was a spurious wake-up with nothing to do.
abbrev Round : ℕ → Device → Answer → Option Got → Type 0
Round size dev a (some g) = Outcome size g
Round size dev a none = (a ≡ woken) × (must_wait dev ≡ true)

timed_round-Round :
    (a : Answer) (dev : Device) (size : ℕ)
    → IsReady dev
    → Returns (Round size dev a) (timed_round a dev size)
unfolding timed_round hid_read_error
timed_round-Round woken dev size h = elim (Bool-cases (is_empty dev.input_reports)) [
  | inr e ↦ rw e (
      Returns-bind (Outcome size) (Round size dev woken) (take_report dev size) _
        (take_report-Outcome dev size h e) (λ g _ o. o))
  | inl e ↦ elim (Bool-cases dev.shutdown_thread) [
    | inl s ↦ rw e (rw s (inl (refl, refl, λ p. cc), h.queue))
    | inr s ↦ rw e (rw s (refl, ground arith))
  ]
]
timed_round-Round timed_out dev size h = (inr (refl, omega arith, h.clear), h.queue)
timed_round-Round failed dev size h = (inl (refl, refl, λ p. cc), h.queue)

later_waits :
    (dev d : Device) (w : Wait) (ws : List Wait)
    → AfterAll dev w.arrived d
    → Ends (w ∷ ws)
    → w.answer ≡ woken
    → must_wait d ≡ true
    → Ends ws
later_waits dev d w ws a (inl (inl n)) e m = absurd (n e)
later_waits dev d w ws a (inl (inr b)) e m =
    let f : must_wait d ≡ false = woken_up dev d w.arrived a b in cc
later_waits dev d w ws a (inr l) e m = l

wait_timed-Outcome :
    (ws : List Wait) (dev : Device) (size : ℕ)
    → IsReady dev
    → must_wait dev ≡ true
    → Ends ws
    → Returns (Outcome size) (wait_timed ws dev size)
unfolding wait_timed
wait_timed-Outcome [] dev size h m o = absurd o
wait_timed-Outcome (w ∷ ws) dev size h m o = rw m (
    Returns-bind (AfterAll dev w.arrived) (Outcome size) (read_callbacks dev w.arrived) _
      (read_callbacks-AfterAll w.arrived dev h.queue)
      λ d _ a.
        let ready : IsReady d = AfterAll-IsReady dev d w.arrived h a in
        Returns-bind (Round size d w.answer) (Outcome size) (timed_round w.answer d size) _
          (timed_round-Round w.answer d size ready)
          elim [
            | some g ↦ λ _ r. r
            | none ↦
                λ _ r. wait_timed-Outcome ws d size ready r.1 (later_waits dev d w ws a o r.0 r.1)
          ])

-- What must happen while a read with timeout `ms` waits, for it to return.
abbrev Finishes : ℤ → List Wait → Type 0
Finishes (negsuc zero) ws = Wakes ws
Finishes (pos (suc n)) ws = Ends ws
Finishes _ ws = Unit

wait_report-Outcome :
    (ms : ℤ) (ws : List Wait) (dev : Device) (size : ℕ)
    → IsReady dev
    → must_wait dev ≡ true
    → Finishes ms ws
    → Returns (Outcome size) (wait_report ws dev size ms)
unfolding wait_report hid_read_error
wait_report-Outcome (negsuc zero) ws dev size h m f = wait_blocking-Outcome ws dev size h (inr f)
wait_report-Outcome (pos (suc n)) ws dev size h m f = wait_timed-Outcome ws dev size h m f
wait_report-Outcome (negsuc (suc n)) ws dev size h m f = (inr (refl, omega arith, h.clear), h.queue)
wait_report-Outcome (pos zero) ws dev size h m f = (inr (refl, omega arith, h.clear), h.queue)

-- On a queue of at most 32 reports `hid_read_timeout` returns, and never takes from an empty queue:
-- at once without a wait for a timeout of 0; for -1 once a report arrives or the read thread stops;
-- for a positive timeout also once the time runs out or the wait fails. The result is -1 exactly
-- when a read error is left, and nothing is stored then; else it is the number of bytes stored, at
-- most the size of the buffer. The queue still holds at most 32 reports.
pub hid_read_timeout-Returned :
    (ms : ℤ) (ws : List Wait) (dev : Device) (buffer : Bool) (size : ℕ)
    → length dev.input_reports ≤ limit
    → Finishes ms ws
    → Returns (Outcome size) (hid_read_timeout ws dev buffer size ms)
unfolding hid_read_timeout hid_read_error
hid_read_timeout-Returned ms ws dev buffer size h f = elim (Bool-cases (not buffer || size == 0)) [
  | inl e ↦ rw e (inl (refl, refl, λ p. cc), h)
  | inr e ↦ elim (Bool-cases (is_empty dev.input_reports)) [
    | inr q ↦ rw e (rw q (take_report-Outcome fresh size ready q))
    | inl q ↦ elim (Bool-cases dev.shutdown_thread) [
      | inl s ↦ rw e (rw q (rw s (inl (refl, refl, λ p. cc), h)))
      | inr s ↦ rw e (
          rw q (
            if_false (Returns (Outcome size)) dev.shutdown_thread _ _ s
              (wait_report-Outcome ms ws fresh size ready (ground arith) f)))
    ]
  ]
]
  where
    fresh : Device
    fresh = record dev { last_read_error = none }

    ready : IsReady fresh
    ready = record { queue = h; clear = refl }

-- A queued report is returned first, cut to the size of the buffer, whatever the timeout and also
-- after the read thread has stopped; the other reports stay queued in order.
hid_read_timeout-queued :
    (ms : ℤ) (ws : List Wait) (dev : Device) (size : ℕ) (r : Bytes) (rs : List Bytes)
    → size ≢ 0
    → dev.input_reports ≡ r ∷ rs
    → hid_read_timeout ws dev true size ms
      ≡ done (
          got
            (pos (min size (length r)))
            (take (min size (length r)) r)
            (record dev { input_reports = rs; last_read_error = none }))
unfolding hid_read_timeout take_report return_data return_queued
hid_read_timeout-queued ms ws dev size r rs n e =
    ground (arith, e, length-take (min size (length r)) r)
