-- ===== src/Session/Exporter/Measure/Whole.antt =====
-- The same for the whole steps of the session.
use airusb_hub.Base.{
  ℕ, ◌≡◌, ◌≤◌, refl, sym, ◌∙◌, ap, subst, true, false, Option, none, some, List, [], ◌∷◌, arith,
  lookup,
}
use airusb_hub.Core.Status.{Status, ok, xfer_timeout}
use airusb_hub.Protocol.Codec.Sessions.{CancelBody}
use airusb_hub.Session.Exporter.{Link, Ports, InFlight, ExporterSession, Books, books}
use airusb_hub.Session.Exporter.Outcomes.{on_plane, collect_from, port_cancel}
use airusb_hub.Session.Exporter.Endings.{
  overdue, requested, sweep_queues, sweep_at, sweep_tokens, sweep_deadlines, abort_on,
  fail_all_transfers,
}
use airusb_hub.Session.Exporter.Handlers.Cancels.{
  matching, cancel_queues, cancel_at, cancel_tokens, cancel_transfers,
}
use airusb_hub.Session.Exporter.Kept.{if_both}
use airusb_hub.Session.Exporter.Serial.Steps.{IsSerial}
use airusb_hub.Session.Exporter.Serial.Ends.{
  Serial, port_cancel-books, sweep_queues-Serial, cancel_queues-Serial,
}
use airusb_hub.Session.Exporter.Serial.Rounds.{sweep_at-Serial, cancel_at-Serial}
use airusb_hub.Session.Exporter.Measure.{Weights, flights, weight}
use airusb_hub.Session.Exporter.Measure.Ends.{sweep_queues-Answers, cancel_queues-Answers}
use airusb_hub.Session.Exporter.Measure.Tokens.{
  Lighter, abort-Lighter, outcomes-Lighter, requested-Lighter, requested-lookup, rest-Lighter,
  retire-Lighter,
}

module _ {T P D : Type 0} (w : Weights) (over : Link T) (ports : Ports P) where
  pub collect-Lighter :
      (s : ExporterSession T P D) (port : Option P)
      → Lighter w over s (collect_from over ports s port).0
  unfolding collect_from
  collect-Lighter s none = (omega arith, refl)
  collect-Lighter s (some port) =
      outcomes-Lighter w over (ports.poll port).1 ok (record s { port = some (ports.poll port).0 })

  port_cancel-Lighter :
      (token : ℕ) (s : ExporterSession T P D) → Lighter w over s (port_cancel ports token s).0
  port_cancel-Lighter token s =
      subst (λ (b : Books). (weight w b ≤ weight w (books s)) × (b.accepted ≡ s.accepted))
        (sym (port_cancel-books over ports token s)) (omega arith, refl)

  sweep_at-Lighter :
      (token : ℕ) (worst : Status) (s : ExporterSession T P D) (f : Option InFlight)
      → lookup token s.plane.in_flight ≡ f
      → Serial over s
      → Lighter w over s (sweep_at over ports token worst s f).0
  unfolding sweep_at
  sweep_at-Lighter token worst s none e v = (omega arith, refl)
  sweep_at-Lighter token worst s (some f) e v =
      let asked = on_plane (requested token f) s in
      let tried = port_cancel ports token asked in
      let first = requested-Lighter w over token f s e v in
      let second = port_cancel-Lighter token asked in
      let g : InFlight = record f { cancel_requested = true } in
      let there : lookup token tried.0.plane.in_flight ≡ some g =
        ap (λ (b : Books). lookup token b.in_flight) (port_cancel-books over ports token asked)
        ∙ requested-lookup w over token f s in
      let third = retire-Lighter w over token g xfer_timeout 0 false false [] tried.0 there in
      if_both (λ (r : ExporterSession T P D × Status). Lighter w over s r.0) tried.1 _ _
        (omega (arith, first.0, second.0), second.1 ∙ first.1)
        (omega (arith, first.0, second.0, third.0), third.1 ∙ second.1 ∙ first.1)

  sweep_tokens-Lighter :
      (tokens : List ℕ) (worst : Status) (s : ExporterSession T P D)
      → Serial over s
      → Lighter w over s (sweep_tokens over ports tokens worst s).0
  unfolding sweep_tokens
  sweep_tokens-Lighter [] worst s v = (omega arith, refl)
  sweep_tokens-Lighter (token ∷ more) worst s v =
      let f = lookup token s.plane.in_flight in
      let r = sweep_at over ports token worst s f in
      let one = sweep_at-Lighter token worst s f refl v in
      let rest =
        sweep_tokens-Lighter more r.1 r.0 (sweep_at-Serial over ports token worst s f refl v) in
      (omega (arith, one.0, rest.0), rest.1 ∙ one.1)

  pub sweep-Lighter :
      (now : ℕ) (s : ExporterSession T P D)
      → Serial over s
      → Lighter w over s (sweep_deadlines over ports now s).0
  unfolding sweep_deadlines on_plane
  sweep-Lighter now s v =
      let swept = sweep_queues over now s.plane.queues ok s in
      let s' = on_plane (λ d. record d { queues = swept.0 }) swept.1.0 in
      let one = sweep_queues-Answers w over now s.plane.queues ok s in
      let left : flights w s'.plane.in_flight ≡ flights w s.plane.in_flight =
        ap (flights w) one.1 in
      let rest =
        sweep_tokens-Lighter (overdue now s'.plane.in_flight) swept.1.1 s'
          (sweep_queues-Serial over now s.plane.queues ok s v.0 v.1) in
      (omega (arith, one.0, left, rest.0), rest.1 ∙ one.3)

  abort_on-Lighter :
      (st : Status) (s : ExporterSession T P D) (port : Option P)
      → Lighter w over s (abort_on over ports st s port)
  unfolding abort_on
  abort_on-Lighter st s none = (omega arith, refl)
  abort_on-Lighter st s (some port) =
      abort-Lighter w over st (ports.abort_all port st).1
        (record s { port = some (ports.abort_all port st).0 })

  pub fail_all-Lighter :
      (st : Status) (s : ExporterSession T P D)
      → Lighter w over s (fail_all_transfers over ports st s)
  unfolding fail_all_transfers
  fail_all-Lighter st s =
      let one = abort_on-Lighter st s s.port in
      let rest = rest-Lighter w over st (abort_on over ports st s s.port) in
      (omega (arith, one.0, rest.0), rest.1 ∙ one.1)

  cancel_at-Lighter :
      (token n : ℕ) (s : ExporterSession T P D) (f : Option InFlight)
      → lookup token s.plane.in_flight ≡ f
      → Serial over s
      → Lighter w over s (cancel_at over ports token n s f).0
  unfolding cancel_at
  cancel_at-Lighter token n s none e v = (omega arith, refl)
  cancel_at-Lighter token n s (some f) e v =
      let tried = port_cancel ports token s in
      let same = port_cancel-books over ports token s in
      let there : lookup token tried.0.plane.in_flight ≡ some f =
        ap (λ (b : Books). lookup token b.in_flight) same ∙ e in
      let first = port_cancel-Lighter token s in
      let second = requested-Lighter w over token f tried.0 there (subst IsSerial (sym same) v) in
      if_both (λ (r : ExporterSession T P D × ℕ). Lighter w over s r.0) tried.1 _ _
        (omega (arith, first.0, second.0), second.1 ∙ first.1) first

  cancel_tokens-Lighter :
      (tokens : List ℕ) (n : ℕ) (s : ExporterSession T P D)
      → Serial over s
      → Lighter w over s (cancel_tokens over ports tokens n s).0
  unfolding cancel_tokens
  cancel_tokens-Lighter [] n s v = (omega arith, refl)
  cancel_tokens-Lighter (token ∷ more) n s v =
      let f = lookup token s.plane.in_flight in
      let r = cancel_at over ports token n s f in
      let one = cancel_at-Lighter token n s f refl v in
      let rest =
        cancel_tokens-Lighter more r.1 r.0 (cancel_at-Serial over ports token n s f refl v) in
      (omega (arith, one.0, rest.0), rest.1 ∙ one.1)

  pub cancel-Lighter :
      (cb : CancelBody) (s : ExporterSession T P D)
      → Serial over s
      → Lighter w over s (cancel_transfers over ports cb s).0
  unfolding cancel_transfers on_plane
  cancel-Lighter cb s v =
      let queued = cancel_queues over cb s.plane.queues s in
      let s' = on_plane (λ d. record d { queues = queued.0 }) queued.1.0 in
      let one = cancel_queues-Answers w over cb s.plane.queues s in
      let left : flights w s'.plane.in_flight ≡ flights w s.plane.in_flight =
        ap (flights w) one.1 in
      let rest =
        cancel_tokens-Lighter (matching cb s'.plane.in_flight) queued.1.1 s'
          (cancel_queues-Serial over cb s.plane.queues s v.0 v.1) in
      (omega (arith, one.0, left, rest.0), rest.1 ∙ one.3)
