-- ===== src/Session/Exporter/Measure/Ends.antt =====
-- No way in which transfers end increases their weight.
use airusb_hub.Base.{
  ℕ, ◌≡◌, ◌≤◌, ◌+◌, ◌%◌, ◌^◌, ◌==◌, refl, sym, ◌∙◌, subst, Bool, true, false, List, [], ◌∷◌, arith,
}
use airusb_hub.Core.Status.{Status, xfer_timeout, xfer_cancelled}
use airusb_hub.Core.Clock.{expired}
use airusb_hub.Protocol.Codec.Sessions.{CancelBody}
use airusb_hub.Session.Exporter.{
  Link, Pending, InFlight, PendingVerb, ExporterSession, Books, flight_of,
}
use airusb_hub.Session.Exporter.Sending.{emit_complete}
use airusb_hub.Session.Exporter.Outcomes.{acknowledge, last_fatal}
use airusb_hub.Session.Exporter.Endings.{
  sweep_front, sweep_queue, sweep_queues, fail_pending, fail_queues, fail_flights, fail_verbs,
}
use airusb_hub.Session.Exporter.Handlers.Cancels.{
  matches, cancel_front, cancel_queue, cancel_queues,
}
use airusb_hub.Session.Exporter.Frames.{emit_complete-books, acknowledge-books}
use airusb_hub.Session.Exporter.Kept.{if_both}
use airusb_hub.Session.Exporter.Measure.{Weights, pile, piles, flights, answers}

module _ {T P D : Type 0} (w : Weights) (over : Link T) where
  -- A step that answers, at most, what `had` has more than `have`, and touches no other account.
  abbrev pub Answers : ℕ → ExporterSession T P D → ℕ → ExporterSession T P D → Type 0
  Answers had s have s' =
      (have + answers w s'.answered ≤ had + answers w s.answered)
      × (s'.plane.in_flight ≡ s.plane.in_flight)
      × (s'.plane.queues ≡ s.plane.queues)
      × (s'.accepted ≡ s.accepted)

  pub emit-Answers :
      (f : InFlight) (st : Status) (n : ℕ) (c z : Bool) (payload : List ℕ)
      (s : ExporterSession T P D)
      → Answers (w.answer f.channel f.request_id) s 0 (emit_complete over f st n c z payload s).0
  emit-Answers f st n c z payload s =
      subst
        (λ (b : Books).
          (0 + answers w b.answered ≤ w.answer f.channel f.request_id + answers w s.answered)
          × (b.in_flight ≡ s.plane.in_flight)
          × (b.queues ≡ s.plane.queues)
          × (b.accepted ≡ s.accepted))
        (sym (emit_complete-books over f st n c z payload s)) (omega arith, refl, refl, refl)

  pub acknowledge-Answers :
      (st : Status) (id : ℕ) (s : ExporterSession T P D) → Answers 0 s 0 (acknowledge over st id s)
  acknowledge-Answers st id s =
      subst
        (λ (b : Books).
          (0 + answers w b.answered ≤ 0 + answers w s.answered)
          × (b.in_flight ≡ s.plane.in_flight)
          × (b.queues ≡ s.plane.queues)
          × (b.accepted ≡ s.accepted))
        (sym (acknowledge-books over st id s)) (omega arith, refl, refl, refl)

  pending-Answers :
      (st : Status) (q : List Pending) (s : ExporterSession T P D)
      → Answers (pile w q) s 0 (fail_pending over st q s)
  unfolding fail_pending flight_of
  pending-Answers st [] s = (omega arith, refl, refl, refl)
  pending-Answers st (p ∷ q) s =
      let one = emit-Answers (flight_of p) st 0 true false [] s in
      let s' = (emit_complete over (flight_of p) st 0 true false [] s).0 in
      let rest = pending-Answers st q s' in
      (omega (arith, one.0, rest.0, w.pending_le p), rest.1 ∙ one.1, rest.2 ∙ one.2, rest.3 ∙ one.3)

  pub queues-Answers :
      (st : Status) (queues : List (ℕ × List Pending)) (s : ExporterSession T P D)
      → Answers (piles w queues) s 0 (fail_queues over st queues s)
  unfolding fail_queues
  queues-Answers st [] s = (omega arith, refl, refl, refl)
  queues-Answers st ((ep, q) ∷ more) s =
      let one = pending-Answers st q s in
      let rest = queues-Answers st more (fail_pending over st q s) in
      (omega (arith, one.0, rest.0), rest.1 ∙ one.1, rest.2 ∙ one.2, rest.3 ∙ one.3)

  pub flights-Answers :
      (st : Status) (m : List (ℕ × InFlight)) (s : ExporterSession T P D)
      → Answers (flights w m) s 0 (fail_flights over st m s)
  unfolding fail_flights
  flights-Answers st [] s = (omega arith, refl, refl, refl)
  flights-Answers st ((token, f) ∷ more) s =
      let one = emit-Answers f st 0 true false [] s in
      let s' = (emit_complete over f st 0 true false [] s).0 in
      let rest = flights-Answers st more s' in
      (omega (arith, one.0, rest.0, w.flight_le f), rest.1 ∙ one.1, rest.2 ∙ one.2, rest.3 ∙ one.3)

  pub verbs-Answers :
      (st : Status) (m : List (ℕ × PendingVerb)) (s : ExporterSession T P D)
      → Answers 0 s 0 (fail_verbs over st m s)
  unfolding fail_verbs
  verbs-Answers st [] s = (omega arith, refl, refl, refl)
  verbs-Answers st ((token, v) ∷ more) s =
      let one = acknowledge-Answers st v.request_id s in
      let rest = verbs-Answers st more (acknowledge over st v.request_id s) in
      (omega (arith, one.0, rest.0), rest.1 ∙ one.1, rest.2 ∙ one.2, rest.3 ∙ one.3)

  sweep_front-Answers :
      (had : ℕ)
      (again : Status → ExporterSession T P D → List Pending × (ExporterSession T P D × Status))
      → ((worst : Status) (s : ExporterSession T P D)
          → Answers had s (pile w (again worst s).0) (again worst s).1.0)
      → (p : Pending) (worst : Status) (s : ExporterSession T P D) (late : Bool)
      → let r = sweep_front over again p worst s late in
        Answers (w.queued p + had) s (pile w r.0) r.1.0
  unfolding sweep_front flight_of
  sweep_front-Answers had again step p worst s true =
      let e = emit_complete over (flight_of p) xfer_timeout 0 false false [] s in
      let one = emit-Answers (flight_of p) xfer_timeout 0 false false [] s in
      let rest = step (last_fatal worst e.1) e.0 in
      (omega (arith, one.0, rest.0, w.pending_le p), rest.1 ∙ one.1, rest.2 ∙ one.2, rest.3 ∙ one.3)
  sweep_front-Answers had again step p worst s false =
      let rest = step worst s in (omega (arith, rest.0), rest.1, rest.2, rest.3)

  sweep_queue-Answers :
      (now : ℕ) (q : List Pending) (worst : Status) (s : ExporterSession T P D)
      → let r = sweep_queue over now q worst s in Answers (pile w q) s (pile w r.0) r.1.0
  unfolding sweep_queue
  sweep_queue-Answers now [] worst s = (omega arith, refl, refl, refl)
  sweep_queue-Answers now (p ∷ q) worst s =
      sweep_front-Answers (pile w q) (sweep_queue over now q) (sweep_queue-Answers now q) p worst s
        (expired now p.deadline)

  pub sweep_queues-Answers :
      (now : ℕ) (queues : List (ℕ × List Pending)) (worst : Status) (s : ExporterSession T P D)
      → let r = sweep_queues over now queues worst s in
        Answers (piles w queues) s (piles w r.0) r.1.0
  unfolding sweep_queues
  sweep_queues-Answers now [] worst s = (omega arith, refl, refl, refl)
  sweep_queues-Answers now ((ep, q) ∷ more) worst s =
      let one = sweep_queue-Answers now q worst s in
      let r = sweep_queue over now q worst s in
      let rest = sweep_queues-Answers now more r.1.1 r.1.0 in
      (omega (arith, one.0, rest.0), rest.1 ∙ one.1, rest.2 ∙ one.2, rest.3 ∙ one.3)

  cancel_front-Answers :
      (had : ℕ) (again : ℕ → ExporterSession T P D → List Pending × (ExporterSession T P D × ℕ))
      → ((n : ℕ) (s : ExporterSession T P D) → Answers had s (pile w (again n s).0) (again n s).1.0)
      → (p : Pending) (n : ℕ) (s : ExporterSession T P D) (hit : Bool)
      → let r = cancel_front over again p n s hit in Answers (w.queued p + had) s (pile w r.0) r.1.0
  unfolding cancel_front flight_of
  cancel_front-Answers had again step p n s true =
      let e = (emit_complete over (flight_of p) xfer_cancelled 0 true false [] s).0 in
      let one = emit-Answers (flight_of p) xfer_cancelled 0 true false [] s in
      let rest = step ((n + 1) % 2 ^ 32) (record e { cancelled = (e.cancelled + 1) % 2 ^ 64 }) in
      (omega (arith, one.0, rest.0, w.pending_le p), rest.1 ∙ one.1, rest.2 ∙ one.2, rest.3 ∙ one.3)
  cancel_front-Answers had again step p n s false =
      let rest = step n s in (omega (arith, rest.0), rest.1, rest.2, rest.3)

  cancel_queue-Answers :
      (cb : CancelBody) (q : List Pending) (n : ℕ) (s : ExporterSession T P D)
      → let r = cancel_queue over cb q n s in Answers (pile w q) s (pile w r.0) r.1.0
  unfolding cancel_queue
  cancel_queue-Answers cb [] n s = (omega arith, refl, refl, refl)
  cancel_queue-Answers cb (p ∷ q) n s =
      cancel_front-Answers (pile w q) (cancel_queue over cb q) (cancel_queue-Answers cb q) p n s
        (matches cb p.sb.ep_addr p.request_id)

  pub cancel_queues-Answers :
      (cb : CancelBody) (queues : List (ℕ × List Pending)) (s : ExporterSession T P D)
      → let r = cancel_queues over cb queues s in Answers (piles w queues) s (piles w r.0) r.1.0
  unfolding cancel_queues
  cancel_queues-Answers cb [] s = (omega arith, refl, refl, refl)
  cancel_queues-Answers cb ((ep, q) ∷ more) s =
      let one = cancel_queue-Answers cb q 0 s in
      let rest = cancel_queues-Answers cb more s in
      if_both
        (λ (r : List (ℕ × List Pending) × (ExporterSession T P D × ℕ)).
          Answers (piles w ((ep, q) ∷ more)) s (piles w r.0) r.1.0)
        (ep == cb.ep_addr) _ _ (omega (arith, one.0), one.1, one.2, one.3)
        (omega (arith, rest.0), rest.1, rest.2, rest.3)
