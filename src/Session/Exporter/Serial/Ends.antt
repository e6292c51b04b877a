-- ===== src/Session/Exporter/Serial/Ends.antt =====
-- However transfers end, one stays on every endpoint at most, and control transfers alone.
use airusb_hub.Base.{
  ℕ, ◌≡◌, refl, sym, subst, ◌==◌, ◌-◌, Bool, true, false, Option, none, some, List, [], ◌∷◌, All,
  lookup,
}
use airusb_hub.Core.Status.{Status, ok}
use airusb_hub.Core.Clock.{expired}
use airusb_hub.Protocol.Codec.Sessions.{CancelBody}
use airusb_hub.Session.Exporter.{
  AsyncOutcome, Link, Ports, Pending, InFlight, PendingVerb, ExporterSession, books,
}
use airusb_hub.Session.Exporter.Outcomes.{
  retired, freed, on_plane, acknowledge, verb_done, transfer_done, outcome_at, collect_outcomes,
  collect_from, cancel_on, port_cancel, first_failure,
}
use airusb_hub.Session.Exporter.Endings.{
  requested, sweep_front, sweep_queue, sweep_queues, fail_pending, fail_queues, fail_flights,
  fail_verbs, aborted, aborted_at, abort_outcomes, fail_rest,
}
use airusb_hub.Session.Exporter.Handlers.Cancels.{
  matches, cancel_front, cancel_queue, cancel_queues,
}
use airusb_hub.Session.Exporter.Frames.{acknowledge-books}
use airusb_hub.Session.Exporter.Kept.{if_both}
use airusb_hub.Session.Exporter.Serial.{
  nothing-IsHeld, erase-IsHeld, free_slot-IsHeld, requested-IsHeld,
}
use airusb_hub.Session.Exporter.Serial.Steps.{
  OnEndpoint, IsKeyed, IsSerial, Flights, emit-Flights, emit-IsSerial,
}

module _ {T P D : Type 0} (over : Link T) where
  abbrev pub Serial : ExporterSession T P D → Type 0
  Serial s = IsSerial (books s)

  acknowledge-Serial :
      (st : Status) (id : ℕ) (s : ExporterSession T P D)
      → Serial s
      → Serial (acknowledge over st id s)
  acknowledge-Serial st id s v = subst IsSerial (sym (acknowledge-books over st id s)) v

  verb-Serial :
      (o : AsyncOutcome) (w : PendingVerb) (s : ExporterSession T P D)
      → Serial s
      → Serial (verb_done over o w s)
  unfolding verb_done
  verb-Serial o w s v =
      let s' = record s {
        reset_pending = s.reset_pending - 1;
        reset_worst = first_failure s.reset_worst o.status;
      } in
      if_both Serial w.is_reset _ _ (acknowledge-Serial s'.reset_worst w.request_id s' v)
        (acknowledge-Serial o.status w.request_id s v)

  -- What the outcome's token holds is given back before the transfer is looked up.
  transfer-Serial :
      (o : AsyncOutcome) (f : Option InFlight) (s : ExporterSession T P D)
      → lookup o.token s.plane.in_flight ≡ f
      → Serial s
      → Serial (transfer_done over o f (on_plane (freed o.token) s)).0
  unfolding transfer_done on_plane freed retired
  transfer-Serial o none s e (keyed, held) =
      (keyed, free_slot-IsHeld o.token s.plane.in_flight s.plane.busy_endpoint e held)
  transfer-Serial o (some f) s e (keyed, held) =
      emit-IsSerial over f _ _ _ _ _ (on_plane (retired o.token) (on_plane (freed o.token) s))
        (keyed, (erase-IsHeld o.token s.plane.in_flight s.plane.busy_endpoint held).1)

  outcome-Serial :
      (o : AsyncOutcome) (w : Option PendingVerb) (s : ExporterSession T P D)
      → Serial s
      → Serial (outcome_at over o w s).0
  unfolding outcome_at on_plane freed
  outcome-Serial o (some w) s v = verb-Serial o w _ v
  outcome-Serial o none s v = transfer-Serial o (lookup o.token s.plane.in_flight) s refl v

  outcomes-Serial :
      (os : List AsyncOutcome) (worst : Status) (s : ExporterSession T P D)
      → Serial s
      → Serial (collect_outcomes over os worst s).0
  unfolding collect_outcomes
  outcomes-Serial [] worst s v = v
  outcomes-Serial (o ∷ os) worst s v =
      outcomes-Serial os _ _ (outcome-Serial o (lookup o.token s.verbs) s v)

  sweep_front-Serial :
      (ep : ℕ)
      (again : Status → ExporterSession T P D → List Pending × (ExporterSession T P D × Status))
      → ((worst : Status) (s : ExporterSession T P D)
          → Flights over s
          → All (OnEndpoint ep) (again worst s).0 × Flights over (again worst s).1.0)
      → (p : Pending) (worst : Status) (s : ExporterSession T P D) (late : Bool) → p.sb.ep_addr ≡ ep
      → Flights over s
      → let r = sweep_front over again p worst s late in
        All (OnEndpoint ep) r.0 × Flights over r.1.0
  unfolding sweep_front
  sweep_front-Serial ep again keeps p worst s true own v =
      keeps _ _ (emit-Flights over _ _ _ _ _ _ s v)
  sweep_front-Serial ep again keeps p worst s false own v =
      let rest = keeps worst s v in ((own, rest.0), rest.1)

  sweep_queue-Serial :
      (now ep : ℕ) (q : List Pending) (worst : Status) (s : ExporterSession T P D)
      → All (OnEndpoint ep) q
      → Flights over s
      → let r = sweep_queue over now q worst s in All (OnEndpoint ep) r.0 × Flights over r.1.0
  unfolding sweep_queue
  sweep_queue-Serial now ep [] worst s keyed v = (tt, v)
  sweep_queue-Serial now ep (p ∷ q) worst s (own, keyed) v =
      sweep_front-Serial ep (sweep_queue over now q)
        (λ worst s v. sweep_queue-Serial now ep q worst s keyed v) p worst s
        (expired now p.deadline) own v

  pub sweep_queues-Serial :
      (now : ℕ) (queues : List (ℕ × List Pending)) (worst : Status) (s : ExporterSession T P D)
      → All IsKeyed queues
      → Flights over s
      → let r = sweep_queues over now queues worst s in All IsKeyed r.0 × Flights over r.1.0
  unfolding sweep_queues
  sweep_queues-Serial now [] worst s keyed v = (tt, v)
  sweep_queues-Serial now ((ep, q) ∷ more) worst s (here, there) v =
      let front = sweep_queue-Serial now ep q worst s here v in
      let r = sweep_queue over now q worst s in
      let rest = sweep_queues-Serial now more r.1.1 r.1.0 there front.1 in
      ((front.0, rest.0), rest.1)

  pending-Serial :
      (st : Status) (q : List Pending) (s : ExporterSession T P D)
      → Serial s
      → Serial (fail_pending over st q s)
  unfolding fail_pending
  pending-Serial st [] s v = v
  pending-Serial st (p ∷ q) s v = pending-Serial st q _ (emit-IsSerial over _ _ _ _ _ _ s v)

  queues-Serial :
      (st : Status) (queues : List (ℕ × List Pending)) (s : ExporterSession T P D)
      → Serial s
      → Serial (fail_queues over st queues s)
  unfolding fail_queues
  queues-Serial st [] s v = v
  queues-Serial st ((ep, q) ∷ more) s v = queues-Serial st more _ (pending-Serial st q s v)

  flights-Serial :
      (st : Status) (m : List (ℕ × InFlight)) (s : ExporterSession T P D)
      → Serial s
      → Serial (fail_flights over st m s)
  unfolding fail_flights
  flights-Serial st [] s v = v
  flights-Serial st ((token, f) ∷ more) s v =
      flights-Serial st more _ (emit-IsSerial over _ _ _ _ _ _ s v)

  verbs-Serial :
      (st : Status) (m : List (ℕ × PendingVerb)) (s : ExporterSession T P D)
      → Serial s
      → Serial (fail_verbs over st m s)
  unfolding fail_verbs
  verbs-Serial st [] s v = v
  verbs-Serial st ((token, w) ∷ more) s v =
      verbs-Serial st more _ (acknowledge-Serial st w.request_id s v)

  aborted-Serial :
      (st : Status) (o : AsyncOutcome) (f : Option InFlight) (s : ExporterSession T P D)
      → Serial s
      → Serial (aborted over st o f s)
  unfolding aborted on_plane retired
  aborted-Serial st o none s v = v
  aborted-Serial st o (some f) s (keyed, held) =
      emit-IsSerial over f _ _ _ _ _ (on_plane (retired o.token) s)
        (keyed, (erase-IsHeld o.token s.plane.in_flight s.plane.busy_endpoint held).0)

  aborted_at-Serial :
      (st : Status) (o : AsyncOutcome) (w : Option PendingVerb) (s : ExporterSession T P D)
      → Serial s
      → Serial (aborted_at over st o w s)
  unfolding aborted_at
  aborted_at-Serial st o (some w) s v = acknowledge-Serial o.status w.request_id _ v
  aborted_at-Serial st o none s v = aborted-Serial st o _ s v

  pub abort-Serial :
      (st : Status) (os : List AsyncOutcome) (s : ExporterSession T P D)
      → Serial s
      → Serial (abort_outcomes over st os s)
  unfolding abort_outcomes
  abort-Serial st [] s v = v
  abort-Serial st (o ∷ os) s v =
      abort-Serial st os _ (aborted_at-Serial st o (lookup o.token s.verbs) s v)

  pub rest-Serial :
      (st : Status) (s : ExporterSession T P D) → Serial s → Serial (fail_rest over st s)
  unfolding fail_rest on_plane
  rest-Serial st s v =
      let s1 = fail_flights over st s.plane.in_flight s in
      let v1 = flights-Serial st s.plane.in_flight s v in
      let s2 = on_plane (λ d. record d { in_flight = []; busy_endpoint = [] }) s1 in
      let s3 = fail_queues over st s2.plane.queues s2 in
      let v3 = queues-Serial st s2.plane.queues s2 (v1.0, nothing-IsHeld) in
      verbs-Serial st s3.verbs (on_plane (λ d. record d { queues = [] }) s3) (tt, v3.1)

  cancel_front-Serial :
      (ep : ℕ) (again : ℕ → ExporterSession T P D → List Pending × (ExporterSession T P D × ℕ))
      → ((n : ℕ) (s : ExporterSession T P D)
          → Flights over s
          → All (OnEndpoint ep) (again n s).0 × Flights over (again n s).1.0)
      → (p : Pending) (n : ℕ) (s : ExporterSession T P D) (hit : Bool) → p.sb.ep_addr ≡ ep
      → Flights over s
      → let r = cancel_front over again p n s hit in All (OnEndpoint ep) r.0 × Flights over r.1.0
  unfolding cancel_front
  cancel_front-Serial ep again keeps p n s true own v =
      keeps _ _ (emit-Flights over _ _ _ _ _ _ s v)
  cancel_front-Serial ep again keeps p n s false own v =
      let rest = keeps n s v in ((own, rest.0), rest.1)

  cancel_queue-Serial :
      (cb : CancelBody) (ep : ℕ) (q : List Pending) (n : ℕ) (s : ExporterSession T P D)
      → All (OnEndpoint ep) q
      → Flights over s
      → let r = cancel_queue over cb q n s in All (OnEndpoint ep) r.0 × Flights over r.1.0
  unfolding cancel_queue
  cancel_queue-Serial cb ep [] n s keyed v = (tt, v)
  cancel_queue-Serial cb ep (p ∷ q) n s (own, keyed) v =
      cancel_front-Serial ep (cancel_queue over cb q)
        (λ n s v. cancel_queue-Serial cb ep q n s keyed v) p n s
        (matches cb p.sb.ep_addr p.request_id) own v

  pub cancel_queues-Serial :
      (cb : CancelBody) (queues : List (ℕ × List Pending)) (s : ExporterSession T P D)
      → All IsKeyed queues
      → Flights over s
      → let r = cancel_queues over cb queues s in All IsKeyed r.0 × Flights over r.1.0
  unfolding cancel_queues
  cancel_queues-Serial cb [] s keyed v = (tt, v)
  cancel_queues-Serial cb ((ep, q) ∷ more) s (here, there) v =
      let front = cancel_queue-Serial cb ep q 0 s here v in
      let rest = cancel_queues-Serial cb more s there v in
      if_both
        (λ (r : List (ℕ × List Pending) × (ExporterSession T P D × ℕ)).
          All IsKeyed r.0 × Flights over r.1.0)
        (ep == cb.ep_addr) _ _ ((front.0, there), front.1) ((here, rest.0), rest.1)

module _ {T P D : Type 0} (over : Link T) (ports : Ports P) where
  pub collect-Serial :
      (s : ExporterSession T P D) (port : Option P)
      → Serial over s
      → Serial over (collect_from over ports s port).0
  unfolding collect_from
  collect-Serial s none v = v
  collect-Serial s (some port) v =
      outcomes-Serial over _ ok (record s { port = some (ports.poll port).0 }) v

  cancel_on-books :
      (token : ℕ) (s : ExporterSession T P D) (port : Option P)
      → books (cancel_on ports token s port).0 ≡ books s
  unfolding cancel_on
  cancel_on-books token s none = refl
  cancel_on-books token s (some port) = refl

  pub port_cancel-books :
      (token : ℕ) (s : ExporterSession T P D) → books (port_cancel ports token s).0 ≡ books s
  unfolding port_cancel
  port_cancel-books token s = cancel_on-books token s s.port

  -- The cancel of a transfer in flight, in a session that keeps its accounts.
  pub requested-Serial :
      (token : ℕ) (f : InFlight) (s : ExporterSession T P D)
      → lookup token s.plane.in_flight ≡ some f
      → Serial over s
      → Serial over (on_plane (requested token f) s)
  unfolding on_plane requested
  requested-Serial token f s e (keyed, held) = (
    keyed,
    requested-IsHeld token f (record f { cancel_requested = true }) s.plane.in_flight
        s.plane.busy_endpoint e refl held,
  )
