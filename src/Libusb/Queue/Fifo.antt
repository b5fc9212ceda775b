-- ===== src/Libusb/Queue/Fifo.antt =====
-- The queue is a FIFO that keeps the 32 newest reports.
use usb_hid_tool.Prelude.{
  ℕ, suc, ◌+◌, ◌-◌, ◌≤◌, ◌≡◌, refl, ap, ◌∙◌, sym, Bool, true, false, List, [], ◌∷◌, ◌++◌, ltb, ◌==◌,
  length, drop, length-append, length-drop, drop-drop, drop-append, not, ◌||◌, ltb→lt, arith,
  Bool-cases, inl, inr,
}
use mathlib.Core.List.{append-nil, append_assoc}
use usb_hid_tool.Run.{Returns, Returns-bind, Returns-mono}
use usb_hid_tool.Libusb.Queue.{
  Bytes, Device, Status, completed, cancelled, no_device, timed_out, Transfer, return_queued,
  return_data, enqueue_on, enqueue, on_status, resubmit, read_callback, read_callbacks,
}

abbrev pub limit : ℕ
limit = 32

-- The newest reports of a history, oldest first.
abbrev pub newest : List Bytes → List Bytes
newest l = drop (length l - limit) l

newest_self : (l : List Bytes) → length l ≤ limit → newest l ≡ l
newest_self l h = let e : length l - limit ≡ 0 = omega arith in ap (λ n. drop n l) e

newest-cons : (r : Bytes) (l : List Bytes) → length l ≡ limit → newest (r ∷ l) ≡ l
newest-cons r l h = let e : suc (length l) - limit ≡ 1 = omega arith in ap (λ n. drop n (r ∷ l)) e

length-concat : (l : List Bytes) (r : Bytes) → length (l ++ (r ∷ [])) ≡ length l + 1
length-concat l r = length-append l (r ∷ [])

abbrev holding : Device → List Bytes → Device
holding dev q = record dev { input_reports = q }

enqueue_on-newest :
    (q : List Bytes) (dev : Device) (rpt : Bytes)
    → length q ≤ limit
    → Returns (λ d. d ≡ holding dev (newest (q ++ (rpt ∷ [])))) (enqueue_on q dev rpt)
unfolding enqueue_on return_data return_queued
enqueue_on-newest [] dev rpt h = refl
enqueue_on-newest (r ∷ rs) dev rpt h = elim (Bool-cases (ltb 30 (length rs))) [
  | inl over ↦ rw over (
      ap (holding dev) (
        sym (
          newest-cons r (rs ++ (rpt ∷ []))
            (omega (arith, length-concat rs rpt, ltb→lt 30 (length rs) over)))))
  | inr under ↦ rw under (
      ap (holding dev)
        (sym (newest_self (r ∷ (rs ++ (rpt ∷ []))) (omega (arith, length-concat rs rpt, room)))))
]
  where
    room : ltb 30 (length rs) ≡ false → length rs ≤ 30
    room e = ground arith

pub length-newest : (l : List Bytes) → length (newest l) ≤ limit
length-newest l = omega (arith, length-drop (length l - limit) l)

-- A transfer whose status is completed brings a report.
abbrev arrive_status : Status → Bytes → List Bytes → List Bytes
arrive_status completed rpt q = newest (q ++ (rpt ∷ []))
arrive_status _ rpt q = q

abbrev arrive : Transfer → List Bytes → List Bytes
arrive t q = arrive_status t.status t.received q

-- The read thread stops on a cancelled transfer, a lost device or a failed submission.
abbrev stops_status : Status → ℕ → Bool
stops_status cancelled answer = true
stops_status no_device answer = true
stops_status _ answer = not (answer == 0)

abbrev stops : Transfer → Bool
stops t = stops_status t.status t.resubmit

-- The device after a transfer, in terms of the abstract queue and of whether the thread stops.
abbrev After : Device → Transfer → Device → Type 0
After dev t d =
    (d.input_reports ≡ arrive t dev.input_reports)
    × (d.shutdown_thread ≡ (dev.shutdown_thread || stops t))
    × (d.transfer_loop_finished ≡ (dev.transfer_loop_finished || (dev.shutdown_thread || stops t)))
    × (d.blocking ≡ dev.blocking)
    × (d.last_read_error ≡ dev.last_read_error)

on_status-After :
    (st : Status) (dev : Device) (rpt : Bytes) (answer : ℕ)
    → length dev.input_reports ≤ limit
    → Returns
        (λ d.
          After dev (record { status = st; received = rpt; resubmit = answer }) (resubmit d answer))
        (on_status st dev rpt)
unfolding on_status resubmit
on_status-After completed dev rpt answer h =
    Returns-mono (enqueue dev rpt)
      (λ d e. after_enqueue (holding dev (newest (dev.input_reports ++ (rpt ∷ [])))) d e)
      (unfold enqueue in enqueue_on-newest dev.input_reports dev rpt h)
  where
    after_enqueue :
        (e d : Device)
        → d ≡ e
        → After e
            (record { status = timed_out; received = rpt; resubmit = answer })
            (resubmit d answer)
    after_enqueue e d p = rw p (ground arith)
on_status-After _ dev rpt answer h = ground arith

-- A callback on a queue of at most 32 reports returns. A completed transfer puts its report at the
-- end and only the 32 newest reports stay; other transfers leave the queue. The read thread is
-- shut down, and its transfer loop finished, exactly when it was so before or the transfer is
-- cancelled, the device is gone, or the transfer cannot be submitted again.
read_callback-After :
    (dev : Device) (t : Transfer)
    → length dev.input_reports ≤ limit
    → Returns (After dev t) (read_callback dev t)
unfolding read_callback
read_callback-After dev t h =
    Returns-bind (λ d. After dev t (resubmit d t.resubmit)) (After dev t)
      (on_status t.status dev t.received) _ (on_status-After t.status dev t.received t.resubmit h)
      (λ d _ a. a)

newest-append : (l m : List Bytes) → newest (newest l ++ m) ≡ newest (l ++ m)
newest-append l m =
    ap newest (sym (drop-append k l m (omega arith)))
    ∙ drop-drop (length (drop k (l ++ m)) - limit) k (l ++ m)
    ∙ ap (λ n. drop n (l ++ m)) total
  where
    k : ℕ
    k = length l - limit

    total : k + (length (drop k (l ++ m)) - limit) ≡ length (l ++ m) - limit
    total = omega (arith, length-append l m, length-drop k (l ++ m))

-- The reports that transfers bring.
abbrev brought_status : Status → Bytes → List Bytes
brought_status completed rpt = rpt ∷ []
brought_status _ rpt = []

abbrev pub brought : List Transfer → List Bytes
brought [] = []
brought (t ∷ ts) = brought_status t.status t.received ++ brought ts

abbrev pub any_stops : List Transfer → Bool
any_stops [] = false
any_stops (t ∷ ts) = stops t || any_stops ts

-- The device after a series of transfers.
pub record AfterAll (dev : Device) (ts : List Transfer) (d : Device) : Type 0 where
  pub queue : d.input_reports ≡ newest (dev.input_reports ++ brought ts)
  pub shutdown : d.shutdown_thread ≡ (dev.shutdown_thread || any_stops ts)
  pub blocking : d.blocking ≡ dev.blocking
  pub read_error : d.last_read_error ≡ dev.last_read_error

arrive_status-newest :
    (st : Status) (rpt : Bytes) (q m : List Bytes)
    → length q ≤ limit
    → newest (arrive_status st rpt q ++ m) ≡ newest (q ++ (brought_status st rpt ++ m))
arrive_status-newest completed rpt q m h =
    newest-append (q ++ (rpt ∷ [])) m ∙ ap newest (append_assoc q (rpt ∷ []) m)
arrive_status-newest _ rpt q m h = refl

length-arrive_status :
    (st : Status) (rpt : Bytes) (q : List Bytes)
    → length q ≤ limit
    → length (arrive_status st rpt q) ≤ limit
length-arrive_status completed rpt q h = length-newest (q ++ (rpt ∷ []))
length-arrive_status _ rpt q h = h

or_assoc : (a b c : Bool) → ((a || b) || c) ≡ (a || (b || c))
or_assoc a b c = ground arith

AfterAll-step :
    (dev d e : Device) (t : Transfer) (ts : List Transfer)
    → length dev.input_reports ≤ limit
    → After dev t d
    → AfterAll d ts e
    → AfterAll dev (t ∷ ts) e
AfterAll-step dev d e t ts h a b = record {
  queue =
      b.queue
      ∙ ap (λ q. newest (q ++ brought ts)) a.0
      ∙ arrive_status-newest t.status t.received dev.input_reports (brought ts) h;
  shutdown =
      b.shutdown
      ∙ ap (λ x. x || any_stops ts) a.1
      ∙ or_assoc dev.shutdown_thread (stops t) (any_stops ts);
  blocking = b.blocking ∙ a.3;
  read_error = b.read_error ∙ a.4;
}

-- Any series of callbacks on a queue of at most 32 reports returns, and leaves the 32 newest of
-- the reports that were queued and of those that completed transfers brought, in order.
pub read_callbacks-AfterAll :
    (ts : List Transfer) (dev : Device)
    → length dev.input_reports ≤ limit
    → Returns (AfterAll dev ts) (read_callbacks dev ts)
unfolding read_callbacks
read_callbacks-AfterAll [] dev h = record {
  queue = sym (ap newest (append-nil dev.input_reports) ∙ newest_self dev.input_reports h);
  shutdown = ground arith;
  blocking = refl;
  read_error = refl;
}
read_callbacks-AfterAll (t ∷ ts) dev h =
    Returns-bind (After dev t) (AfterAll dev (t ∷ ts)) (read_callback dev t) _
      (read_callback-After dev t h)
      λ d _ a.
        Returns-mono (read_callbacks d ts) (λ e b. AfterAll-step dev d e t ts h a b)
          (read_callbacks-AfterAll ts d
            (rw a.0 (length-arrive_status t.status t.received dev.input_reports h)))
