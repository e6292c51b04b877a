-- ===== src/Session/Exporter/Endings.antt =====
-- airusb/session/ExporterSession: transfers that their deadlines end, and all of them at once.
use airusb_hub.Base.{
  ℕ, Bool, true, false, not, ◌&&◌, Option, none, some, List, [], ◌∷◌, if◌then◌else◌, lookup, put,
  erase,
}
use airusb_hub.Core.Status.{Status, ok, xfer_timeout}
use airusb_hub.Core.Clock.{expired}
use airusb_hub.Session.Exporter.{
  AsyncOutcome, Link, Ports, Pending, InFlight, PendingVerb, Plane, ExporterSession, flight_of,
}
use airusb_hub.Session.Exporter.Sending.{emit_complete}
use airusb_hub.Session.Exporter.Outcomes.{
  is_ok, last_fatal, retired, on_plane, acknowledge, port_cancel,
}

-- The tokens in flight whose deadlines have passed and whose cancel the port has not accepted.
unfoldable pub overdue : ℕ → List (ℕ × InFlight) → List ℕ
overdue now [] = []
overdue now ((token, f) ∷ more) =
    let rest = overdue now more in
    if expired now f.deadline && not f.cancel_requested then token ∷ rest else rest

unfoldable pub requested : ℕ → InFlight → Plane → Plane
requested token f d = record d {
  in_flight = put token (record f { cancel_requested = true }) d.in_flight;
}

module _ {T P D : Type 0} (over : Link T) where
  -- One transfer of a queue, which is late or is kept; `again` goes on with those behind it.
  unfoldable pub sweep_front :
      (Status → ExporterSession T P D → List Pending × (ExporterSession T P D × Status))
      → Pending
      → Status
      → ExporterSession T P D
      → Bool
      → List Pending × (ExporterSession T P D × Status)
  sweep_front again p worst s true =
      let r = emit_complete over (flight_of p) xfer_timeout 0 false false [] s in
      again (last_fatal worst r.1) r.0
  sweep_front again p worst s false = let rest = again worst s in (p ∷ rest.0, rest.1)

  -- The queue that is kept, beside the session and the worst status.
  unfoldable pub sweep_queue :
      ℕ
      → List Pending
      → Status
      → ExporterSession T P D
      → List Pending × (ExporterSession T P D × Status)
  sweep_queue now [] worst s = ([], (s, worst))
  sweep_queue now (p ∷ q) worst s =
      sweep_front (sweep_queue now q) p worst s (expired now p.deadline)

  unfoldable pub sweep_queues :
      ℕ
      → List (ℕ × List Pending)
      → Status
      → ExporterSession T P D
      → List (ℕ × List Pending) × (ExporterSession T P D × Status)
  sweep_queues now [] worst s = ([], (s, worst))
  sweep_queues now ((ep, q) ∷ more) worst s =
      let front = sweep_queue now q worst s in
      let rest = sweep_queues now more front.1.1 front.1.0 in ((ep, front.0) ∷ rest.0, rest.1)

  unfoldable pub fail_pending :
      Status → List Pending → ExporterSession T P D → ExporterSession T P D
  fail_pending st [] s = s
  fail_pending st (p ∷ q) s =
      fail_pending st q (emit_complete over (flight_of p) st 0 true false [] s).0

  unfoldable pub fail_queues :
      Status → List (ℕ × List Pending) → ExporterSession T P D → ExporterSession T P D
  fail_queues st [] s = s
  fail_queues st ((ep, q) ∷ more) s = fail_queues st more (fail_pending st q s)

  unfoldable pub fail_flights :
      Status → List (ℕ × InFlight) → ExporterSession T P D → ExporterSession T P D
  fail_flights st [] s = s
  fail_flights st ((token, f) ∷ more) s =
      fail_flights st more (emit_complete over f st 0 true false [] s).0

  unfoldable pub fail_verbs :
      Status → List (ℕ × PendingVerb) → ExporterSession T P D → ExporterSession T P D
  fail_verbs st [] s = s
  fail_verbs st ((token, v) ∷ more) s = fail_verbs st more (acknowledge over st v.request_id s)

  -- What the port aborts is answered as cancelled.
  unfoldable pub aborted :
      Status → AsyncOutcome → Option InFlight → ExporterSession T P D → ExporterSession T P D
  aborted st o none s = s
  aborted st o (some f) s =
      (emit_complete over f (if is_ok o.status then st else o.status) o.actual_len true o.zlp_sent
        o.data_in (on_plane (retired o.token) s)).0

  unfoldable pub aborted_at :
      Status → AsyncOutcome → Option PendingVerb → ExporterSession T P D → ExporterSession T P D
  aborted_at st o (some v) s =
      acknowledge over o.status v.request_id (record s { verbs = erase o.token s.verbs })
  aborted_at st o none s = aborted st o (lookup o.token s.plane.in_flight) s

  unfoldable pub abort_outcomes :
      Status → List AsyncOutcome → ExporterSession T P D → ExporterSession T P D
  abort_outcomes st [] s = s
  abort_outcomes st (o ∷ os) s = abort_outcomes st os (aborted_at st o (lookup o.token s.verbs) s)

  -- What the port did not know of: in flight, then queued, then the verbs.
  unfoldable pub fail_rest : Status → ExporterSession T P D → ExporterSession T P D
  fail_rest st s =
      let s = fail_flights st s.plane.in_flight s in
      let s = on_plane (λ d. record d { in_flight = []; busy_endpoint = [] }) s in
      let s = fail_queues st s.plane.queues s in
      let s = on_plane (λ d. record d { queues = [] }) s in
      record (fail_verbs st s.verbs s) { verbs = [] }

module _ {T P D : Type 0} (over : Link T) (ports : Ports P) where
  -- The port cannot stop the transfer: it is answered, and the endpoint stays reserved.
  unfoldable pub sweep_at :
      ℕ → Status → ExporterSession T P D → Option InFlight → ExporterSession T P D × Status
  sweep_at token worst s none = (s, worst)
  sweep_at token worst s (some f) =
      let tried = port_cancel ports token (on_plane (requested token f) s) in
      let r =
        emit_complete over (record f { cancel_requested = true }) xfer_timeout 0 false false []
          (on_plane (retired token) tried.0) in
      if tried.1 then (tried.0, worst) else (r.0, last_fatal worst r.1)

  unfoldable pub sweep_tokens :
      List ℕ → Status → ExporterSession T P D → ExporterSession T P D × Status
  sweep_tokens [] worst s = (s, worst)
  sweep_tokens (token ∷ more) worst s =
      let r = sweep_at token worst s (lookup token s.plane.in_flight) in sweep_tokens more r.1 r.0

  unfoldable pub sweep_deadlines : ℕ → ExporterSession T P D → ExporterSession T P D × Status
  sweep_deadlines now s =
      let swept = sweep_queues over now s.plane.queues ok s in
      let s = on_plane (λ d. record d { queues = swept.0 }) swept.1.0 in
      sweep_tokens (overdue now s.plane.in_flight) swept.1.1 s

  unfoldable pub abort_on : Status → ExporterSession T P D → Option P → ExporterSession T P D
  abort_on st s none = s
  abort_on st s (some port) =
      let done = ports.abort_all port st in
      abort_outcomes over st done.1 (record s { port = some done.0 })

  unfoldable pub fail_all_transfers : Status → ExporterSession T P D → ExporterSession T P D
  unfolding abort_on
  fail_all_transfers st s = fail_rest over st (abort_on st s s.port)
