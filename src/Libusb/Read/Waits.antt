-- ===== src/Libusb/Read/Waits.antt =====
-- A report that is taken, and the waits of a blocking read.
use usb_hid_tool.Prelude.{
  ℕ, ◌-◌, ◌≤◌, ◌<◌, ◌≡◌, ◌≢◌, ◌⊎◌, refl, ◌∙◌, min, true, false, List, [], ◌∷◌, ◌++◌, none, length,
  length-take, length-append, length-drop, arith, Bool-cases, inl, inr,
}
use usb_hid_tool.Prelude.Int.{pos, minus_one}
use usb_hid_tool.Run.{done, ◌>>=◌, Returns, Returns-bind}
use usb_hid_tool.Libusb.Queue.{Bytes, Device, Transfer, return_queued, return_data, read_callbacks}
use usb_hid_tool.Libusb.Queue.Fifo.{
  limit, newest, length-newest, brought, any_stops, AfterAll, read_callbacks-AfterAll,
}
use usb_hid_tool.Libusb.Read.{
  Wait, Got, got, take_report, is_empty, must_wait, blocking_result, wait_blocking, hid_read_error,
}

-- -1 with nothing stored and a read error, or the number of bytes stored and no read error. The
-- queue stays within its limit.
abbrev pub Outcome : ℕ → Got → Type 0
Outcome size g =
    (((g.result ≡ minus_one) × (g.stored ≡ []) × (hid_read_error g.dev ≢ none))
      ⊎ ((g.result ≡ pos (length g.stored))
          × (length g.stored ≤ size)
          × (hid_read_error g.dev ≡ none)))
    × (length g.dev.input_reports ≤ limit)

-- A device whose queue is within its limit and whose read error is clear.
pub record IsReady (dev : Device) : Type 0 where
  pub queue : length dev.input_reports ≤ limit
  pub clear : dev.last_read_error ≡ none

-- A report lies in the queue: the read takes it, whole or cut to the size of the buffer.
pub take_report-Outcome :
    (dev : Device) (size : ℕ)
    → IsReady dev
    → is_empty dev.input_reports ≡ false
    → Returns (Outcome size) (take_report dev size)
unfolding take_report return_data
take_report-Outcome dev size h e = go dev.input_reports h.queue e
  where
    go :
        (q : List Bytes)
        → length q ≤ limit
        → is_empty q ≡ false
        → Returns (Outcome size) (
            return_queued q dev size >>= λ (bytes, dev').
            done (got (pos (length bytes)) bytes dev'))
    go [] l e = cc
    go (r ∷ rs) l e =
        unfold return_queued hid_read_error in
        (inr (refl, omega (arith, length-take (min size (length r)) r), h.clear), omega arith)

blocking_result-Outcome :
    (dev : Device) (size : ℕ) → IsReady dev → Returns (Outcome size) (blocking_result dev size)
unfolding blocking_result hid_read_error
blocking_result-Outcome dev size h = elim (Bool-cases (is_empty dev.input_reports)) [
  | inl e ↦ rw e (inl (refl, refl, λ p. cc), h.queue)
  | inr e ↦ rw e (take_report-Outcome dev size h e)
]

-- Among the transfers that come in while the reader waits there is a report, or one that stops the
-- read thread.
abbrev pub Wakes : List Wait → Type 0
Wakes [] = ⊥
Wakes (w ∷ ws) = ((brought w.arrived ≢ []) ⊎ (any_stops w.arrived ≡ true)) ⊎ Wakes ws

newest-ne : (l m : List Bytes) → m ≢ [] → is_empty (newest (l ++ m)) ≡ false
newest-ne l [] h = absurd (h refl)
newest-ne l (r ∷ m) h = not_nil (newest (l ++ (r ∷ m))) (
    omega
      (arith, length-drop (length (l ++ (r ∷ m)) - limit) (l ++ (r ∷ m)), length-append l (r ∷ m)))
  where
    not_nil : (q : List Bytes) → 0 < length q → is_empty q ≡ false
    not_nil [] p = absurd (omega arith)
    not_nil (x ∷ q) p = refl

pub woken_up :
    (dev d : Device) (ts : List Transfer)
    → AfterAll dev ts d
    → (brought ts ≢ []) ⊎ (any_stops ts ≡ true)
    → must_wait d ≡ false
woken_up dev d ts a (inl b) = ground (arith, a.queue, newest-ne dev.input_reports (brought ts) b)
woken_up dev d ts a (inr s) = ground (arith, a.shutdown)

pub AfterAll-IsReady :
    (dev d : Device) (ts : List Transfer) → IsReady dev → AfterAll dev ts d → IsReady d
AfterAll-IsReady dev d ts h a = record {
  queue = rw a.queue (length-newest (dev.input_reports ++ brought ts));
  clear = a.read_error ∙ h.clear;
}

pub wait_blocking-Outcome :
    (ws : List Wait) (dev : Device) (size : ℕ)
    → IsReady dev
    → (must_wait dev ≡ false) ⊎ Wakes ws
    → Returns (Outcome size) (wait_blocking ws dev size)
unfolding wait_blocking
wait_blocking-Outcome [] dev size h (inl e) = rw e (blocking_result-Outcome dev size h)
wait_blocking-Outcome [] dev size h (inr e) = absurd e
wait_blocking-Outcome (w ∷ ws) dev size h o = elim (Bool-cases (must_wait dev)) [
  | inr e ↦ rw e (blocking_result-Outcome dev size h)
  | inl e ↦ rw e (
      Returns-bind (AfterAll dev w.arrived) (Outcome size) (read_callbacks dev w.arrived) _
        (read_callbacks-AfterAll w.arrived dev h.queue)
        λ d _ a.
          wait_blocking-Outcome ws d size (AfterAll-IsReady dev d w.arrived h a) (next d a o e))
]
  where
    next :
        (d : Device)
        → AfterAll dev w.arrived d
        → (must_wait dev ≡ false) ⊎ Wakes (w ∷ ws)
        → must_wait dev ≡ true
        → (must_wait d ≡ false) ⊎ Wakes ws
    next d a (inl f) e = cc
    next d a (inr (inl b)) e = inl (woken_up dev d w.arrived a b)
    next d a (inr (inr l)) e = inr l
