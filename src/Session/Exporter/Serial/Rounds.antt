-- ===== src/Session/Exporter/Serial/Rounds.antt =====
-- A round of the event loop leaves one transfer on every endpoint at most, and control transfers
-- alone.
use airusb_hub.Base.{
  ℕ, ◌≡◌, refl, sym, ◌∙◌, subst, ap, true, false, Option, none, some, List, [], ◌∷◌, lookup,
}
use airusb_hub.Core.Status.{Status, ok, xfer_timeout}
use airusb_hub.Protocol.Codec.Sessions.{CancelBody}
use airusb_hub.Session.Exporter.{Link, Ports, Source, Peer, InFlight, ExporterSession, Books, books}
use airusb_hub.Session.Exporter.Sending.{emit_complete}
use airusb_hub.Session.Exporter.Outcomes.{retired, on_plane, collect, port_cancel}
use airusb_hub.Session.Exporter.Endings.{
  overdue, requested, sweep_queues, sweep_at, sweep_tokens, sweep_deadlines, abort_on,
  fail_all_transfers,
}
use airusb_hub.Session.Exporter.Handlers.Cancels.{
  matching, cancel_queues, cancel_at, cancel_tokens, cancel_transfers,
}
use airusb_hub.Session.Exporter.Pump.{Reading, pump}
use airusb_hub.Session.Exporter.Kept.{IsKept, if_both}
use airusb_hub.Session.Exporter.Kept.Round.{pump-Kept}
use airusb_hub.Session.Exporter.Serial.{erase-IsHeld}
use airusb_hub.Session.Exporter.Serial.Steps.{
  IsSerial, emit-IsSerial, enqueue-IsSerial, admit-IsSerial,
}
use airusb_hub.Session.Exporter.Serial.Ends.{
  Serial, sweep_queues-Serial, rest-Serial, abort-Serial, cancel_queues-Serial, collect-Serial,
  port_cancel-books, requested-Serial,
}

module _ {T P D : Type 0} (over : Link T) (ports : Ports P) where
  -- The port could not stop the transfer, which is answered.
  retire-Serial :
      (f : InFlight) (s : ExporterSession T P D) (token : ℕ)
      → Serial over s
      → Serial over
          (emit_complete over f xfer_timeout 0 false false [] (on_plane (retired token) s)).0
  unfolding on_plane retired
  retire-Serial f s token (keyed, held) =
      emit-IsSerial over f _ _ _ _ _ (on_plane (retired token) s)
        (keyed, (erase-IsHeld token s.plane.in_flight s.plane.busy_endpoint held).0)

  pub sweep_at-Serial :
      (token : ℕ) (worst : Status) (s : ExporterSession T P D) (f : Option InFlight)
      → lookup token s.plane.in_flight ≡ f
      → Serial over s
      → Serial over (sweep_at over ports token worst s f).0
  unfolding sweep_at
  sweep_at-Serial token worst s none e v = v
  sweep_at-Serial token worst s (some f) e v =
      let asked = on_plane (requested token f) s in
      let tried = port_cancel ports token asked in
      let kept : Serial over tried.0 =
        subst IsSerial (sym (port_cancel-books over ports token asked))
          (requested-Serial over ports token f s e v) in
      if_both (λ (r : ExporterSession T P D × Status). Serial over r.0) tried.1 _ _ kept
        (retire-Serial (record f { cancel_requested = true }) tried.0 token kept)

  sweep_tokens-Serial :
      (tokens : List ℕ) (worst : Status) (s : ExporterSession T P D)
      → Serial over s
      → Serial over (sweep_tokens over ports tokens worst s).0
  unfolding sweep_tokens
  sweep_tokens-Serial [] worst s v = v
  sweep_tokens-Serial (token ∷ more) worst s v =
      sweep_tokens-Serial more _ _
        (sweep_at-Serial token worst s (lookup token s.plane.in_flight) refl v)

  sweep-Serial :
      (now : ℕ) (s : ExporterSession T P D)
      → Serial over s
      → Serial over (sweep_deadlines over ports now s).0
  unfolding sweep_deadlines on_plane
  sweep-Serial now s v =
      let swept = sweep_queues over now s.plane.queues ok s in
      let s' = on_plane (λ d. record d { queues = swept.0 }) swept.1.0 in
      sweep_tokens-Serial (overdue now s'.plane.in_flight) swept.1.1 s'
        (sweep_queues-Serial over now s.plane.queues ok s v.0 v.1)

  abort_on-Serial :
      (st : Status) (s : ExporterSession T P D) (port : Option P)
      → Serial over s
      → Serial over (abort_on over ports st s port)
  unfolding abort_on
  abort_on-Serial st s none v = v
  abort_on-Serial st s (some port) v =
      abort-Serial over st _ (record s { port = some (ports.abort_all port st).0 }) v

  fail_all-Serial :
      (st : Status) (s : ExporterSession T P D)
      → Serial over s
      → Serial over (fail_all_transfers over ports st s)
  unfolding fail_all_transfers
  fail_all-Serial st s v =
      rest-Serial over st (abort_on over ports st s s.port) (abort_on-Serial st s s.port v)

  pub cancel_at-Serial :
      (token n : ℕ) (s : ExporterSession T P D) (f : Option InFlight)
      → lookup token s.plane.in_flight ≡ f
      → Serial over s
      → Serial over (cancel_at over ports token n s f).0
  unfolding cancel_at
  cancel_at-Serial token n s none e v = v
  cancel_at-Serial token n s (some f) e v =
      let tried = port_cancel ports token s in
      let same = port_cancel-books over ports token s in
      let kept : Serial over tried.0 = subst IsSerial (sym same) v in
      let there : lookup token tried.0.plane.in_flight ≡ some f =
        ap (λ (b : Books). lookup token b.in_flight) same ∙ e in
      if_both (λ (r : ExporterSession T P D × ℕ). Serial over r.0) tried.1 _ _
        (requested-Serial over ports token f tried.0 there kept) kept

  cancel_tokens-Serial :
      (tokens : List ℕ) (n : ℕ) (s : ExporterSession T P D)
      → Serial over s
      → Serial over (cancel_tokens over ports tokens n s).0
  unfolding cancel_tokens
  cancel_tokens-Serial [] n s v = v
  cancel_tokens-Serial (token ∷ more) n s v =
      cancel_tokens-Serial more _ _
        (cancel_at-Serial token n s (lookup token s.plane.in_flight) refl v)

  cancel-Serial :
      (cb : CancelBody) (s : ExporterSession T P D)
      → Serial over s
      → Serial over (cancel_transfers over ports cb s).0
  unfolding cancel_transfers on_plane
  cancel-Serial cb s v =
      let queued = cancel_queues over cb s.plane.queues s in
      let s' = on_plane (λ d. record d { queues = queued.0 }) queued.1.0 in
      cancel_tokens-Serial (matching cb s'.plane.in_flight) queued.1.1 s'
        (cancel_queues-Serial over cb s.plane.queues s v.0 v.1)

  pub Serial-IsKept : IsKept over ports (Serial {T = T} {P = P} {D = D} over)
  unfolding collect
  Serial-IsKept = record {
    framed = λ s s' e v. subst IsSerial (sym e) v;
    enqueued = λ now ch id sb payload s v. enqueue-IsSerial over now ch id sb payload s v;
    admitted = λ s v. admit-IsSerial over ports s v;
    collected = λ s v. collect-Serial over ports s s.port v;
    swept = λ now s v. sweep-Serial now s v;
    failed = λ st s v. fail_all-Serial st s v;
    cancelled = λ cb s v. cancel-Serial cb s v;
  }

-- Whatever the record layer, the port, the source and the peer do: a session whose queues hold
-- transfers of their own endpoints, and whose transfers in flight hold their endpoints' slots with
-- control transfers alone, is again such a session after a round of the event loop.
pub pump-IsSerial :
    {T P D : Type 0} (over : Link T) (ports : Ports P) (source : Source D P)
    (hash : List ℕ → List ℕ) (now : ℕ) (fresh : List ℕ) (peer : Peer) (readings : List Reading)
    (s : ExporterSession T P D)
    → IsSerial (books s)
    → IsSerial (books (pump over ports source hash now fresh peer readings s).0)
pump-IsSerial over ports source hash now fresh peer readings s v =
    pump-Kept over ports source hash now fresh peer (Serial over) (Serial-IsKept over ports)
      readings s v
