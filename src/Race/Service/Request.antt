-- ===== src/Race/Service/Request.antt =====
-- Which response a request gets.
use usb_hid_tool.Prelude.{
  ℕ, ◌≤◌, ◌<◌, ◌≡◌, ◌⊎◌, refl, sym, ap, subst, ◌∙◌, List, [], ◌∷◌, Option, none, some, length,
  arith, Option-cases, inl, inr,
}
use usb_hid_tool.Run.{Run, done, ◌>>=◌, Returns, Returns-bind, Returns-mono}
use usb_hid_tool.Race.Packet.{
  Bytes, HidReportConfig, Parsed, accepted, no_data, refused, parse_in_report, build_out_report,
}
use usb_hid_tool.Race.Packet.Build.{build_out_report-written}
use usb_hid_tool.Race.Packet.Parse.{Describes, parse_in_report-Describes}
use usb_hid_tool.Race.Transport.{Hidapi, TransportError, write_report}
use usb_hid_tool.Race.Service.{
  RaceService, Event, report, timeout, Response, not_sent, timed_out, answered, send_single,
  on_hid_report_received, event_loop, response_of, request_response,
}

-- The payload of a report that is accepted.
abbrev payload_of : Run Parsed → Option Bytes
payload_of (done (accepted payload target)) = some payload
payload_of _ = none

abbrev first_heard : Option Bytes → Option Bytes → Option Bytes
first_heard none later = later
first_heard (some payload) later = some payload

-- The first payload before the timer fires.
abbrev pub first_payload : HidReportConfig → List Event → Option Bytes
first_payload cfg [] = none
first_payload cfg (timeout ∷ events) = none
first_payload cfg (report raw ∷ events) =
    first_heard (payload_of (parse_in_report raw cfg)) (first_payload cfg events)

abbrev pub response_to : Option Bytes → Response
response_to none = timed_out
response_to (some payload) = answered payload

abbrev answer_of : Response → Option Bytes
answer_of (not_sent e) = none
answer_of timed_out = none
answer_of (answered resp) = some resp

-- The payload behind a response.
pub answered-heard :
    (answer : Option Bytes) (resp : Bytes) → answered resp ≡ response_to answer → answer ≡ some resp
answered-heard none resp e = sym (ap answer_of e)
answered-heard (some payload) resp e = sym (ap answer_of e)

pub timed_out-unheard : (answer : Option Bytes) → timed_out ≡ response_to answer → answer ≡ none
timed_out-unheard none e = refl
timed_out-unheard (some payload) e = sym (ap answer_of e)

module _ {H W : Type 0} (api : Hidapi H W) where
  -- What a report brings: its payload, which is not empty; the configuration stays.
  abbrev Heard : Bytes → RaceService H W → Option (Bytes × ℕ) × RaceService H W → Type 0
  Heard raw s (none, s') = (payload_of (parse_in_report raw s.cfg) ≡ none) × (s'.cfg ≡ s.cfg)
  Heard raw s (some (payload, target), s') =
      (payload_of (parse_in_report raw s.cfg) ≡ some payload) × (0 < length payload)

  on_hid_report_received-Heard :
      (raw : Bytes) (s : RaceService H W)
      → 3 ≤ s.cfg.report_size
      → Returns (Heard raw s) (on_hid_report_received api raw s)
  unfolding on_hid_report_received
  on_hid_report_received-Heard raw s h =
      Returns-bind (Describes s.cfg raw) (Heard raw s) (parse_in_report raw s.cfg) _
        (parse_in_report-Describes raw s.cfg h)
        elim [
          | accepted payload target ↦ λ e d. (ap payload_of e, d.1)
          | no_data ↦ λ e d. (ap payload_of e, refl)
          | refused x ↦ λ e d. (ap payload_of e, refl)
        ]

  -- The loop ends with the first payload, or with none.
  abbrev Ended : List Event → HidReportConfig → Bytes × RaceService H W → Type 0
  Ended events cfg (payload, s') = response_of payload ≡ response_to (first_payload cfg events)

  event_loop-Ended :
      (events : List Event) (s : RaceService H W)
      → 3 ≤ s.cfg.report_size
      → Returns (Ended events s.cfg) (event_loop api events s)
  unfolding event_loop
  event_loop-Ended [] s h = refl
  event_loop-Ended (timeout ∷ events) s h = refl
  event_loop-Ended (report raw ∷ events) s h =
      Returns-bind (Heard raw s) (Ended (report raw ∷ events) s.cfg)
        (on_hid_report_received api raw s) _ (on_hid_report_received-Heard raw s h)
        (next (event_loop-Ended events))
    where
      next :
          ((s' : RaceService H W)
            → 3 ≤ s'.cfg.report_size
            → Returns (Ended events s'.cfg) (event_loop api events s'))
          → (a : Option (Bytes × ℕ) × RaceService H W) → on_hid_report_received api raw s ≡ done a
          → Heard raw s a
          → Returns
              (Ended (report raw ∷ events) s.cfg)
              (elim a.0 [ none ↦ event_loop api events a.1 | some x ↦ done (x.0, a.1) ])
      next rec (some (b ∷ bs, target), s') e k =
          ap (λ o. response_to (first_heard o (first_payload s.cfg events))) (sym k.0)
      next rec (some ([], target), s') e k = absurd (omega (arith, k.1))
      next rec (none, s') e k =
          Returns-mono (event_loop api events s')
            (λ r p.
              p
              ∙ ap (λ c. response_to (first_payload c events)) k.1
              ∙ ap (λ o. response_to (first_heard o (first_payload s.cfg events))) (sym k.0))
            (rec s' (omega (arith, ap (λ c. c.report_size) k.1)))

  -- Sending keeps the configuration.
  abbrev pub Kept : RaceService H W → Option TransportError × RaceService H W → Type 0
  Kept s (e, s') = s'.cfg ≡ s.cfg

  pub send_single-Kept :
      (cmd : Bytes) (target : ℕ) (s : RaceService H W)
      → 3 ≤ s.cfg.report_size
      → Returns (Kept s) (send_single api cmd target s)
  unfolding send_single
  send_single-Kept cmd target s h = ground (arith, build_out_report-written cmd target s.cfg h)

  -- The answer to a request, by the error of its write.
  abbrev pub AnswersTo : Option TransportError → Option Bytes → Response → Type 0
  AnswersTo none answer r = r ≡ response_to answer
  AnswersTo (some e) answer r = r ≡ not_sent e

  -- What is sent: its error is that of the write, and the configuration is kept.
  abbrev Sent :
      Option TransportError → RaceService H W → Option TransportError × RaceService H W → Type 0
  Sent error s (e, s') = (e ≡ error) × (s'.cfg ≡ s.cfg)

  send_single-Sent :
      (cmd : Bytes) (target : ℕ) (raw : Bytes) (s : RaceService H W)
      → build_out_report cmd target s.cfg ≡ done raw
      → Returns
          (Sent (write_report api raw s.transport s.world).error s)
          (send_single api cmd target s)
  unfolding send_single
  send_single-Sent cmd target raw s b =
      elim (Option-cases (write_report api raw s.transport s.world).error) [
        | inl e ↦ ground (arith, b, e)
        | inr (x, e) ↦ ground (arith, b, e)
      ]

  -- With reports of at least three bytes, and whatever comes in, a request returns. Where the write of
  -- its report succeeds, it is answered by the payload of the first report that is accepted before the
  -- timer fires, and times out without one; where the write fails, the result is its error.
  pub request_response-Answered :
      (cmd : Bytes) (target : ℕ) (raw : Bytes) (events : List Event) (s : RaceService H W)
      → 3 ≤ s.cfg.report_size
      → build_out_report cmd target s.cfg ≡ done raw
      → Returns
          (λ (r, s').
            AnswersTo
              (write_report api raw s.transport s.world).error
              (first_payload s.cfg events)
              r)
          (request_response api cmd target events s)
  unfolding request_response
  request_response-Answered cmd target raw events s h b =
      Returns-bind (Sent error s) (λ r. AnswersTo error answer r.0) (send_single api cmd target s) _
        (send_single-Sent cmd target raw s b) next
    where
      error : Option TransportError
      error = (write_report api raw s.transport s.world).error

      answer : Option Bytes
      answer = first_payload s.cfg events

      next :
          (a : Option TransportError × RaceService H W)
          → send_single api cmd target s ≡ done a
          → Sent error s a
          → Returns
              (λ (r : Response × RaceService H W). AnswersTo error answer r.0)
              (elim a.0 [
                | none ↦ event_loop api events a.1 >>= λ p. done (response_of p.0, p.1)
                | some e ↦ done (not_sent e, a.1)
              ])
      next (some e, s') q k = subst (λ o. AnswersTo o answer (not_sent e)) k.0 refl
      next (none, s') q k =
          Returns-bind (Ended events s'.cfg) (λ r. AnswersTo error answer r.0)
            (event_loop api events s') _
            (event_loop-Ended events s' (omega (arith, h, ap (λ c. c.report_size) k.1)))
            (λ p _ d.
              subst (λ o. AnswersTo o answer (response_of p.0)) k.0
                (d ∙ ap (λ c. response_to (first_payload c events)) k.1))

  -- The same without the report: an answer, or some error of the write.
  pub request_response-Responds :
      (cmd : Bytes) (target : ℕ) (events : List Event) (s : RaceService H W)
      → 3 ≤ s.cfg.report_size
      → Returns
          (λ (r, s').
            (r ≡ response_to (first_payload s.cfg events))
            ⊎ ((e : TransportError) × (r ≡ not_sent e)))
          (request_response api cmd target events s)
  unfolding request_response
  request_response-Responds cmd target events s h =
      Returns-bind (Kept s) (λ r. Answers r.0) (send_single api cmd target s) _
        (send_single-Kept cmd target s h) next
    where
      Answers : Response → Type 0
      Answers r =
          (r ≡ response_to (first_payload s.cfg events)) ⊎ ((e : TransportError) × (r ≡ not_sent e))

      next :
          (a : Option TransportError × RaceService H W)
          → send_single api cmd target s ≡ done a
          → Kept s a
          → Returns
              (λ (r : Response × RaceService H W). Answers r.0)
              (elim a.0 [
                | none ↦ event_loop api events a.1 >>= λ p. done (response_of p.0, p.1)
                | some e ↦ done (not_sent e, a.1)
              ])
      next (some e, s') q k = inr (e, refl)
      next (none, s') q k =
          Returns-bind (Ended events s'.cfg) (λ r. Answers r.0) (event_loop api events s') _
            (event_loop-Ended events s' (omega (arith, ap (λ c. c.report_size) k)))
            (λ p _ d. inl (d ∙ ap (λ c. response_to (first_payload c events)) k))
