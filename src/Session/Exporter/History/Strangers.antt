-- ===== src/Session/Exporter/History/Strangers.antt =====
-- airusb/session/ExporterSession: what a peer that is not paired can do.
use airusb_hub.Base.{
  String, ℕ, zero, suc, ◌≡◌, ◌⊎◌, inl, inr, refl, ◌%◌, ◌^◌, ◌+◌, ◌==◌, true, false, not, ltb,
  Option, none, some, List, [], ◌∷◌, arith, if◌then◌else◌, length, take, drop, All, subst, sym, ◌∙◌,
  Option-cases, Bool-cases,
}
use airusb_hub.Core.Status.{Status, ok, transport_lost, unsupported_message, is_fatal}
use airusb_hub.Protocol.Codec.Headers.{Header, decode_header, header_size}
use airusb_hub.Protocol.Validate.{validate_header}
use airusb_hub.Protocol.Messages.{decode_ping}
use airusb_hub.Session.Lease.{heard, heard-owner}
use airusb_hub.Session.Exporter.{
  Link, Ports, Source, Peer, ExporterSession, closed, State, idle, leased, draining, orphaned,
  permitted, is_pre_trust_message, is_leased, has_port,
}
use airusb_hub.Session.Exporter.Sending.{refuse, send_record, send_simple, blank_header}
use airusb_hub.Session.Exporter.Queue.{admit}
use airusb_hub.Session.Exporter.Outcomes.{collect, collect_from, on_plane}
use airusb_hub.Session.Exporter.Endings.{
  sweep_deadlines, sweep_queues, sweep_tokens, overdue, fail_all_transfers, fail_rest, fail_flights,
  fail_queues, fail_verbs,
}
use airusb_hub.Session.Exporter.Handlers.{refuse_message, reset_reassembly, limits_for, is_passed}
use airusb_hub.Session.Exporter.Handlers.Control.{handle_ping, ping_decoded, close, ended}
use airusb_hub.Session.Exporter.Pump.{
  Reading, arrived, gone, failed, Ending, drained, lost, stopped, is_owed, dispatch, handle,
  message_at, messages, then_read, read_all, orphan, lease_timer, swept, collected_again, collected,
  after_reading, flushed, pump,
}
use airusb_hub.Session.Exporter.Kept.{if_both}
use airusb_hub.Session.Exporter.History.{Round, rounds}

module _ {T P D : Type 0} (devices : D) (owner : List ℕ) (issued : ℕ) where
  -- Nothing is held for the peer: no transfer, no verb and no port, and the devices and the lease's
  -- owner are the given ones.
  abbrev pub HoldsNothing : ExporterSession T P D → Type 0
  HoldsNothing s =
      (s.plane.queues ≡ [])
      × (s.plane.in_flight ≡ [])
      × (s.verbs ≡ [])
      × (s.accepted ≡ [])
      × (s.port ≡ none)
      × (is_leased s.state ≡ false)
      × (s.devices ≡ devices)
      × (s.leases.s.owner ≡ owner)
      × (s.leases.next_attach_id ≡ issued)

-- An end of the session does not lease it.
ended-IsLeft : (s : State) → is_leased (ended s) ≡ false
unfolding ended is_leased
ended-IsLeft idle = refl
ended-IsLeft leased = refl
ended-IsLeft draining = refl
ended-IsLeft orphaned = refl
ended-IsLeft closed = refl

module _ {T P D : Type 0} (over : Link T) (ports : Ports P) (source : Source D P)
    (hash : List ℕ → List ℕ) (now : ℕ) (fresh : List ℕ) (peer : Peer) (devices : D) (owner : List ℕ)
    (issued : ℕ) where
  abbrev Calm : ExporterSession T P D → Type 0
  Calm = HoldsNothing devices owner issued

  abbrev Answered : ExporterSession T P D × Status → Type 0
  Answered r = Calm r.0

  abbrev Reaches : ExporterSession T P D × Ending → Type 0
  Reaches r = Calm r.0

  refused-Calm :
      (h : Header) (st : Status) (why : String) (s : ExporterSession T P D)
      → Calm s
      → Answered (refuse_message over h st why s)
  unfolding refuse_message refuse send_record
  refused-Calm h st why s i = i

  ping-Calm :
      (h : Header) (body : List ℕ) (s : ExporterSession T P D)
      → Calm s
      → Answered (handle_ping over now h body s)
  unfolding handle_ping ping_decoded send_simple
  ping-Calm h body s i = elim (Option-cases (decode_ping body)) [
    | inl bad ↦ rw bad (refused-Calm h _ _ s i)
    | inr (p, good) ↦ rw good i
  ]

  close-Calm : (s : ExporterSession T P D) → Calm s → Calm (close over ports source s)
  unfolding close reset_reassembly has_port
  close-Calm s (q, f, v, a, p, l, d, o, n) = rw p (q, f, v, a, refl, ended-IsLeft s.state, d, o, n)

  fail_all-Calm :
      (st : Status) (s : ExporterSession T P D) → Calm s → Calm (fail_all_transfers over ports st s)
  unfolding fail_all_transfers fail_rest on_plane fail_flights fail_queues fail_verbs
  fail_all-Calm st s (q, f, v, a, p, l, d, o, n) =
      rw (p, f, q, v) (refl, refl, refl, a, refl, l, d, o, n)

  dispatch-pre_trust :
      (h : Header) (body : List ℕ) (s : ExporterSession T P D)
      → is_pre_trust_message h.type ≡ true
      → let r = dispatch over ports source hash now fresh peer h body s in
        (r ≡ handle_ping over now h body s)
        ⊎ (r ≡ (close over ports source (record s { state = closed }), ok))
        ⊎ (r
            ≡ refuse_message over h unsupported_message
                "That request is not supported by this version." s)
  unfolding dispatch is_pre_trust_message
  dispatch-pre_trust h body s pre = ground arith

  handle-Calm :
      (h : Header) (body : List ℕ) (s : ExporterSession T P D)
      → peer.is_paired ≡ false
      → Calm s
      → Answered (handle over ports source hash now fresh peer h body s)
  unfolding handle permitted is_leased
  handle-Calm h body s stranger i =
      let s' = record s { handled = (s.handled + 1) % 2 ^ 64 } in
      elim (Bool-cases (is_pre_trust_message h.type)) [
        | inl pre ↦ elim (dispatch-pre_trust h body s' pre) [
          | inl ping ↦ rw (pre, ping) (ping-Calm h body s' i)
          | inr (inl goodbye) ↦
              rw (pre, goodbye)
                (close-Calm (record s' { state = closed })
                  (i.0, i.1, i.2, i.3, i.4, refl, i.6, i.7, i.8))
          | inr (inr other) ↦ rw (pre, other) (refused-Calm h _ _ s' i)
        ]
        | inr other ↦ rw (other, stranger) (refused-Calm h _ _ s' i)
      ]

  message-Calm :
      (again : ExporterSession T P D → List ℕ → ExporterSession T P D × Ending)
      → ((s : ExporterSession T P D) (rest : List ℕ) → Calm s → Reaches (again s rest))
      → (rest : List ℕ) (s : ExporterSession T P D) (h : Option Header) → peer.is_paired ≡ false
      → Calm s
      → Reaches (message_at over ports source hash now fresh peer again rest s h)
  unfolding message_at
  message-Calm again calm rest s none stranger i = refused-Calm blank_header _ _ s i
  message-Calm again calm rest s (some h) stranger i =
      let body = drop header_size rest in
      let v = validate_header h (length body) (limits_for (over.max_record_bytes s.link)) in
      let r = handle over ports source hash now fresh peer h (take h.body_len body) s in
      let kept = handle-Calm h (take h.body_len body) s stranger i in
      if_both Reaches (not (is_passed v)) _ _ (refused-Calm h _ _ s i) (
        if_both Reaches (ltb (length body) h.body_len) _ _ (refused-Calm h _ _ s i)
          (if_both Reaches (is_fatal r.1) _ _ kept (calm r.0 (drop h.body_len body) kept)))

  messages-Calm :
      (fuel : ℕ) (s : ExporterSession T P D) (rest : List ℕ)
      → peer.is_paired ≡ false
      → Calm s
      → Reaches (messages over ports source hash now fresh peer fuel s rest)
  unfolding messages
  messages-Calm zero s rest stranger i = i
  messages-Calm (suc fuel) s [] stranger i = i
  messages-Calm (suc fuel) s (b ∷ rest) stranger i =
      message-Calm (messages over ports source hash now fresh peer fuel)
        (λ s' r i'. messages-Calm fuel s' r stranger i') (b ∷ rest) s (decode_header (b ∷ rest))
        stranger i

  then_read-Calm :
      (again : ExporterSession T P D → ExporterSession T P D × Ending)
      → ((s : ExporterSession T P D) → Calm s → Reaches (again s))
      → (r : ExporterSession T P D × Ending) → Reaches r
      → Reaches (then_read over ports source hash now fresh peer again r)
  unfolding then_read
  then_read-Calm again calm (s, drained) i = calm s i
  then_read-Calm again calm (s, lost) i = i
  then_read-Calm again calm (s, stopped st) i = i

  heard-Calm :
      (s : ExporterSession T P D)
      → Calm s
      → Calm (record s { leases = heard now peer.identity_key s.leases })
  heard-Calm s (q, f, v, a, p, l, d, o, n) =
      let held = heard-owner now peer.identity_key s.leases in
      (q, f, v, a, p, l, d, held.0 ∙ o, held.1 ∙ n)

  read_all-Calm :
      (readings : List Reading) (s : ExporterSession T P D)
      → peer.is_paired ≡ false
      → Calm s
      → Reaches (read_all over ports source hash now fresh peer readings s)
  unfolding read_all
  read_all-Calm [] s stranger i = i
  read_all-Calm (gone ∷ more) s stranger i = i
  read_all-Calm (failed st ∷ more) s stranger i = i
  read_all-Calm (arrived [] ∷ more) s stranger i = i
  read_all-Calm (arrived (b ∷ bytes) ∷ more) s stranger i =
      let s' = record s { last_heard_ns = now; leases = heard now peer.identity_key s.leases } in
      then_read-Calm (read_all over ports source hash now fresh peer more)
        (λ t j. read_all-Calm more t stranger j)
        (messages over ports source hash now fresh peer (suc (length bytes)) s' (b ∷ bytes))
        (messages-Calm (suc (length bytes)) s' (b ∷ bytes) stranger (heard-Calm s i))

  collect_idle : (s : ExporterSession T P D) → Calm s → collect over ports s ≡ (s, ok)
  unfolding collect collect_from
  collect_idle s i = rw (i.4) refl

  admit_idle : (s : ExporterSession T P D) → Calm s → admit over ports s ≡ s
  unfolding admit
  admit_idle s i = rw (i.5) refl

  sweep-Calm : (s : ExporterSession T P D) → Calm s → Answered (sweep_deadlines over ports now s)
  unfolding sweep_deadlines sweep_queues sweep_tokens overdue on_plane
  sweep-Calm s (q, f, v, a, p, l, d, o, n) = rw (q, f) (refl, refl, v, a, p, l, d, o, n)

  timer_idle :
      (s : ExporterSession T P D) → Calm s → lease_timer over ports source hash now fresh peer s ≡ s
  unfolding lease_timer
  timer_idle s i = elim (Bool-cases (is_owed s)) [
    | inl owed ↦ rw owed refl
    | inr quiet ↦ rw (quiet, i.5) refl
  ]

  swept-Calm :
      (r : ExporterSession T P D × Status)
      → Answered r
      → Answered (swept over ports source hash now fresh peer r)
  unfolding swept
  swept-Calm (s, st) i = if_both Answered (is_fatal st) _ _ i (subst Calm (sym (timer_idle s i)) i)

  again-Calm :
      (r : ExporterSession T P D × Status)
      → Answered r
      → Answered (collected_again over ports source hash now fresh peer r)
  unfolding collected_again
  again-Calm (s, st) i =
      let present = record s { leases = heard now peer.identity_key s.leases } in
      let chosen = if is_owed s then present else s in
      if_both Answered (is_fatal st) _ _ i (
        swept-Calm (sweep_deadlines over ports now chosen)
          (sweep-Calm chosen (if_both Calm (is_owed s) present s (heard-Calm s i) i)))

  collect-Calm : (s : ExporterSession T P D) → Calm s → Answered (collect over ports s)
  collect-Calm s i = subst Answered (sym (collect_idle s i)) i

  collected-Calm :
      (r : ExporterSession T P D × Status)
      → Answered r
      → Answered (collected over ports source hash now fresh peer r)
  unfolding collected
  collected-Calm (s, st) i = if_both Answered (is_fatal st) _ _ i (
      again-Calm (collect over ports (admit over ports s))
        (collect-Calm (admit over ports s) (subst Calm (sym (admit_idle s i)) i)))

  orphan-Calm :
      (s : ExporterSession T P D) → Calm s → Calm (orphan over ports source hash now fresh peer s)
  unfolding orphan reset_reassembly
  orphan-Calm s i = rw (i.5) (fail_all-Calm transport_lost s i)

  after_reading-Calm :
      (r : ExporterSession T P D × Ending)
      → Reaches r
      → Answered (after_reading over ports source hash now fresh peer r)
  unfolding after_reading
  after_reading-Calm (s, drained) i = collected-Calm _ (collect-Calm s i)
  after_reading-Calm (s, lost) i = orphan-Calm s i
  after_reading-Calm (s, stopped st) i = i

  flushed-Calm :
      (readings : List Reading) (s : ExporterSession T P D) (r : T × Status)
      → peer.is_paired ≡ false
      → Calm s
      → Answered (flushed over ports source hash now fresh peer readings s r)
  unfolding flushed
  flushed-Calm readings s (t, ok) stranger i =
      after_reading-Calm _ (read_all-Calm readings (record s { link = t }) stranger i)
  flushed-Calm readings s (t, other) stranger i = i

  pump-Calm :
      (readings : List Reading) (s : ExporterSession T P D)
      → peer.is_paired ≡ false
      → Calm s
      → Answered (pump over ports source hash now fresh peer readings s)
  unfolding pump
  pump-Calm readings s stranger i = if_both Answered (not (over.is_up s.link)) _ _ i (
      if_both Answered (over.pending_tx_bytes s.link == 0) _ _
        (after_reading-Calm _ (read_all-Calm readings s stranger i))
        (flushed-Calm readings s (over.flush s.link) stranger i))

abbrev pub IsStranger : Round → Type 0
IsStranger r = r.peer.is_paired ≡ false

-- A session that begins with no transfers, no verbs and no port and is not leased, and whose peer
-- is in every round an unpaired one, has after the rounds still none of these: whatever messages
-- that peer sends, GOODBYE and the pairing's among them, none is accepted as a transfer, the device
-- source is as it was, and neither the owner of the lease nor the number of attachments changes.
pub rounds-unpaired :
    {T P D : Type 0} (over : Link T) (ports : Ports P) (source : Source D P)
    (hash : List ℕ → List ℕ) (devices : D) (owner : List ℕ) (issued : ℕ) (rs : List Round)
    (s : ExporterSession T P D)
    → All IsStranger rs
    → HoldsNothing devices owner issued s
    → HoldsNothing devices owner issued (rounds over ports source hash rs s)
unfolding rounds
rounds-unpaired over ports source hash devices owner issued [] s strangers i = i
rounds-unpaired over ports source hash devices owner issued (r ∷ rs) s strangers i =
    rounds-unpaired over ports source hash devices owner issued rs
      (pump over ports source hash r.now r.fresh r.peer r.readings s).0 strangers.1
      (pump-Calm over ports source hash r.now r.fresh r.peer devices owner issued r.readings s
        strangers.0 i)
