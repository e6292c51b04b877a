-- ===== src/Session/Exporter/Measure/Tokens.antt =====
-- The same for the transfers in flight, which go by their tokens.
use airusb_hub.Base.{
  ℕ, ◌≡◌, ◌≤◌, ◌-◌, refl, ◌∙◌, ap, Bool, true, Option, none, some, List, [], ◌∷◌, arith,
  if◌then◌else◌, sum_of-erase, sum_of-put_self, lookup, erase, lookup-put, ==_refl,
}
use airusb_hub.Core.Status.{Status}
use airusb_hub.Session.Exporter.{AsyncOutcome, Link, InFlight, PendingVerb, ExporterSession, books}
use airusb_hub.Session.Exporter.Sending.{emit_complete}
use airusb_hub.Session.Exporter.Outcomes.{
  retired, freed, on_plane, acknowledge, verb_done, transfer_done, outcome_at, collect_outcomes,
  first_failure, is_ok, last_fatal,
}
use airusb_hub.Session.Exporter.Endings.{
  requested, fail_queues, fail_flights, fail_verbs, aborted, aborted_at, abort_outcomes, fail_rest,
}
use airusb_hub.Session.Exporter.Kept.{if_both}
use airusb_hub.Session.Exporter.Serial.Ends.{Serial}
use airusb_hub.Session.Exporter.Measure.{Weights, piles, flights, weight}
use airusb_hub.Session.Exporter.Measure.Ends.{
  emit-Answers, acknowledge-Answers, flights-Answers, queues-Answers, verbs-Answers,
}

module _ {T P D : Type 0} (w : Weights) (over : Link T) where
  -- No weight is added, and nothing is accepted.
  abbrev pub Lighter : ExporterSession T P D → ExporterSession T P D → Type 0
  Lighter s s' = (weight w (books s') ≤ weight w (books s)) × (s'.accepted ≡ s.accepted)

  then-Lighter : (s s' s'' : ExporterSession T P D) → Lighter s s' → Lighter s' s'' → Lighter s s''
  then-Lighter s s' s'' x y = (omega (arith, x.0, y.0), y.1 ∙ x.1)

  -- A transfer in flight is erased and answered.
  pub retire-Lighter :
      (token : ℕ) (f : InFlight) (st : Status) (n : ℕ) (c z : Bool) (payload : List ℕ)
      (s : ExporterSession T P D)
      → lookup token s.plane.in_flight ≡ some f
      → Lighter s (emit_complete over f st n c z payload (on_plane (retired token) s)).0
  unfolding on_plane retired
  retire-Lighter token f st n c z payload s e =
      let s0 = on_plane (retired token) s in
      let s' = (emit_complete over f st n c z payload s0).0 in
      let one = emit-Answers w over f st n c z payload s0 in
      let left : flights w s'.plane.in_flight ≡ flights w (erase token s.plane.in_flight) =
        ap (flights w) one.1 in
      let queues : piles w s'.plane.queues ≡ piles w s.plane.queues = ap (piles w) one.2 in
      let gone = sum_of-erase (λ (x : ℕ × InFlight). w.flying x.1) token f s.plane.in_flight e in
      (omega (arith, one.0, left, queues, gone, w.flight_le f), one.3)

  acknowledge-Lighter :
      (st : Status) (id : ℕ) (s : ExporterSession T P D) → Lighter s (acknowledge over st id s)
  acknowledge-Lighter st id s =
      let one = acknowledge-Answers w over st id s in
      let s' = acknowledge over st id s in
      let left : flights w s'.plane.in_flight ≡ flights w s.plane.in_flight =
        ap (flights w) one.1 in
      let queues : piles w s'.plane.queues ≡ piles w s.plane.queues = ap (piles w) one.2 in
      (omega (arith, one.0, left, queues), one.3)

  verb-Lighter :
      (o : AsyncOutcome) (v : PendingVerb) (s : ExporterSession T P D)
      → Lighter s (verb_done over o v s)
  unfolding verb_done
  verb-Lighter o v s =
      let s' = record s {
        reset_pending = s.reset_pending - 1;
        reset_worst = first_failure s.reset_worst o.status;
      } in
      if_both (Lighter s) v.is_reset _ _ (acknowledge-Lighter s'.reset_worst v.request_id s')
        (acknowledge-Lighter o.status v.request_id s)

  transfer-Lighter :
      (o : AsyncOutcome) (f : Option InFlight) (s : ExporterSession T P D)
      → lookup o.token s.plane.in_flight ≡ f
      → Lighter s (transfer_done over o f (on_plane (freed o.token) s)).0
  unfolding transfer_done on_plane freed
  transfer-Lighter o none s e = (omega arith, refl)
  transfer-Lighter o (some f) s e =
      retire-Lighter o.token f o.status o.actual_len o.cancelled o.zlp_sent o.data_in
        (on_plane (freed o.token) s) e

  outcome-Lighter :
      (o : AsyncOutcome) (v : Option PendingVerb) (s : ExporterSession T P D)
      → Lighter s (outcome_at over o v s).0
  unfolding outcome_at
  outcome-Lighter o (some v) s = verb-Lighter o v (record s { verbs = erase o.token s.verbs })
  outcome-Lighter o none s = transfer-Lighter o (lookup o.token s.plane.in_flight) s refl

  pub outcomes-Lighter :
      (os : List AsyncOutcome) (worst : Status) (s : ExporterSession T P D)
      → Lighter s (collect_outcomes over os worst s).0
  unfolding collect_outcomes
  outcomes-Lighter [] worst s = (omega arith, refl)
  outcomes-Lighter (o ∷ os) worst s =
      let r = outcome_at over o (lookup o.token s.verbs) s in
      let rest = outcomes-Lighter os (last_fatal worst r.1) r.0 in
      let one = outcome-Lighter o (lookup o.token s.verbs) s in
      (omega (arith, one.0, rest.0), rest.1 ∙ one.1)

  aborted-Lighter :
      (st : Status) (o : AsyncOutcome) (f : Option InFlight) (s : ExporterSession T P D)
      → lookup o.token s.plane.in_flight ≡ f
      → Lighter s (aborted over st o f s)
  unfolding aborted
  aborted-Lighter st o none s e = (omega arith, refl)
  aborted-Lighter st o (some f) s e =
      retire-Lighter o.token f (if is_ok o.status then st else o.status) o.actual_len true
        o.zlp_sent o.data_in s e

  aborted_at-Lighter :
      (st : Status) (o : AsyncOutcome) (v : Option PendingVerb) (s : ExporterSession T P D)
      → Lighter s (aborted_at over st o v s)
  unfolding aborted_at
  aborted_at-Lighter st o (some v) s =
      acknowledge-Lighter o.status v.request_id (record s { verbs = erase o.token s.verbs })
  aborted_at-Lighter st o none s = aborted-Lighter st o (lookup o.token s.plane.in_flight) s refl

  pub abort-Lighter :
      (st : Status) (os : List AsyncOutcome) (s : ExporterSession T P D)
      → Lighter s (abort_outcomes over st os s)
  unfolding abort_outcomes
  abort-Lighter st [] s = (omega arith, refl)
  abort-Lighter st (o ∷ os) s =
      let s' = aborted_at over st o (lookup o.token s.verbs) s in
      let one = aborted_at-Lighter st o (lookup o.token s.verbs) s in
      let rest = abort-Lighter st os s' in (omega (arith, one.0, rest.0), rest.1 ∙ one.1)

  pub rest-Lighter : (st : Status) (s : ExporterSession T P D) → Lighter s (fail_rest over st s)
  unfolding fail_rest on_plane
  rest-Lighter st s =
      let s1 = fail_flights over st s.plane.in_flight s in
      let a1 = flights-Answers w over st s.plane.in_flight s in
      let s2 = on_plane (λ d. record d { in_flight = []; busy_endpoint = [] }) s1 in
      let s3 = fail_queues over st s2.plane.queues s2 in
      let a3 = queues-Answers w over st s2.plane.queues s2 in
      let s4 = on_plane (λ d. record d { queues = [] }) s3 in
      let a4 = verbs-Answers w over st s3.verbs s4 in
      let s5 = fail_verbs over st s3.verbs s4 in
      let queued : piles w s2.plane.queues ≡ piles w s.plane.queues = ap (piles w) a1.2 in
      let none_queued : piles w s5.plane.queues ≡ 0 = ap (piles w) a4.2 in
      let none_flying : flights w s5.plane.in_flight ≡ 0 = ap (flights w) (a4.1 ∙ a3.1) in
      (omega (arith, a1.0, a3.0, a4.0, queued, none_queued, none_flying), a4.3 ∙ a3.3 ∙ a1.3)

  pub requested-lookup :
      (token : ℕ) (f : InFlight) (s : ExporterSession T P D)
      → lookup token (on_plane (requested token f) s).plane.in_flight
        ≡ some (record f { cancel_requested = true })
  unfolding on_plane requested
  requested-lookup token f s =
      lookup-put token token (record f { cancel_requested = true }) s.plane.in_flight
      ∙ rw (==_refl token) refl

  pub requested-Lighter :
      (token : ℕ) (f : InFlight) (s : ExporterSession T P D)
      → lookup token s.plane.in_flight ≡ some f
      → Serial over s
      → Lighter s (on_plane (requested token f) s)
  unfolding on_plane requested
  requested-Lighter token f s e v =
      let same =
        sum_of-put_self (λ (x : ℕ × InFlight). w.flying x.1) token f
          (record f { cancel_requested = true }) s.plane.in_flight v.1.ascending e
          (w.requested_le f) in
      (omega (arith, same), refl)
