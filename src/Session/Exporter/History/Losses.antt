-- ===== src/Session/Exporter/History/Losses.antt =====
-- airusb/session/ExporterSession: how a session loses its transport.
use airusb_hub.Base.{
  ℕ, zero, suc, ◌≡◌, ◌≢◌, ◌⊎◌, inl, inr, refl, ◌==◌, Bool, true, false, not, ltb, Option, none,
  some, List, [], ◌∷◌, arith, String, if◌then◌else◌, length, take, drop, All, Bool-cases,
}
use airusb_hub.Core.Status.{Status, ok, transport_lost, is_fatal}
use airusb_hub.Protocol.Codec.Headers.{Header, decode_header, header_size}
use airusb_hub.Protocol.Validate.{validate_header}
use airusb_hub.Session.Lease.{heard, quarantine}
use airusb_hub.Session.Exporter.{Link, Ports, Source, Peer, orphaned, ExporterSession, is_leased}
use airusb_hub.Session.Exporter.Sending.{refuse, blank_header}
use airusb_hub.Session.Exporter.Outcomes.{collect}
use airusb_hub.Session.Exporter.Endings.{fail_all_transfers, abort_on}
use airusb_hub.Session.Exporter.Handlers.{refuse_message, reset_reassembly, limits_for, is_passed}
use airusb_hub.Session.Exporter.Pump.{
  Reading, arrived, gone, failed, Ending, drained, lost, stopped, handle, message_at, messages,
  then_read, read_all, orphan, swept, collected_again, collected, after_reading, flushed, pump,
}
use airusb_hub.Session.Exporter.Kept.{if_both}
use airusb_hub.Session.Exporter.History.{emptied}

-- `pump` answers `TransportLost` of a reading as a loss, and any other failure as what it is.
abbrev pub IsTold : Reading → Type 0
IsTold (failed st) = st ≢ transport_lost
IsTold other = Unit

-- Not the status of a lost transport.
abbrev Stays : Status → Type 0
Stays st = st ≢ transport_lost

abbrev StopsWell : Ending → Type 0
StopsWell (stopped st) = Stays st
StopsWell other = Unit

fatal-Stays : (st : Status) → is_fatal st ≡ true → Stays st
unfolding is_fatal
fatal-Stays st e h = ground arith

-- Where each branch holds under its own side of the test.
if_known {ℓ κ} :
    {A : Type ℓ} (Q : A → Type κ) (b : Bool) (x y : A)
    → (b ≡ true → Q x)
    → (b ≡ false → Q y)
    → Q (if b then x else y)
if_known Q true x y hx hy = hx refl
if_known Q false x y hx hy = hy refl

module _ {T P D : Type 0} where
  -- No transfer is queued or in flight, and no verb is awaited.
  abbrev pub IsEmptied : ExporterSession T P D → Type 0
  IsEmptied s = (s.plane.queues ≡ []) × (s.plane.in_flight ≡ []) × (s.verbs ≡ [])

  -- The session is as it was but for its record layer.
  abbrev pub IsUntouched : ExporterSession T P D → ExporterSession T P D → Type 0
  IsUntouched s s' = s' ≡ record s { link = s'.link }

-- The transport was gone before the round read anything: the record layer is not up, or it owes
-- bytes and loses the transport over them.
abbrev pub IsUnsent : {T : Type 0} → Link T → T → Type 0
IsUnsent over t =
    (over.is_up t ≡ false) ⊎ ((over.pending_tx_bytes t ≢ 0) × ((over.flush t).1 ≡ transport_lost))

module _ {T P D : Type 0} (over : Link T) (ports : Ports P) (source : Source D P)
    (hash : List ℕ → List ℕ) (now : ℕ) (fresh : List ℕ) (peer : Peer) where
  abbrev Answer : ExporterSession T P D × Status → Type 0
  Answer r = Stays r.1

  abbrev Stop : ExporterSession T P D × Ending → Type 0
  Stop r = StopsWell r.1

  refused-Stays :
      (h : Header) (st : Status) (why : String) (s : ExporterSession T P D)
      → Answer (refuse_message over h st why s)
  unfolding refuse_message refuse
  refused-Stays h st why s = elim (Bool-cases (is_fatal st)) [
    | inl fatal ↦ rw fatal (fatal-Stays st fatal)
    | inr mild ↦ rw mild (λ e. absurd (cc e))
  ]

  -- The status of a step that `pump` returns is fatal, or the rest of the round answers.
  or_rest :
      (st : Status) (s : ExporterSession T P D) (rest : ExporterSession T P D × Status)
      → Answer rest
      → Answer (if is_fatal st then (s, st) else rest)
  or_rest st s rest good =
      if_known Answer (is_fatal st) _ _ (λ fatal. fatal-Stays st fatal) (λ mild. good)

  swept-Stays :
      (r : ExporterSession T P D × Status) → Answer (swept over ports source hash now fresh peer r)
  unfolding swept
  swept-Stays (s, st) = or_rest st s _ (λ e. absurd (cc e))

  again-Stays :
      (r : ExporterSession T P D × Status)
      → Answer (collected_again over ports source hash now fresh peer r)
  unfolding collected_again
  again-Stays (s, st) = or_rest st s _ (swept-Stays _)

  collected-Stays :
      (r : ExporterSession T P D × Status)
      → Answer (collected over ports source hash now fresh peer r)
  unfolding collected
  collected-Stays (s, st) = or_rest st s _ (again-Stays _)

  message-Stops :
      (again : ExporterSession T P D → List ℕ → ExporterSession T P D × Ending)
      → ((s : ExporterSession T P D) (rest : List ℕ) → Stop (again s rest))
      → (rest : List ℕ) (s : ExporterSession T P D) (h : Option Header)
      → Stop (message_at over ports source hash now fresh peer again rest s h)
  unfolding message_at
  message-Stops again stops rest s none = refused-Stays blank_header _ _ s
  message-Stops again stops rest s (some h) =
      let body = drop header_size rest in
      let v = validate_header h (length body) (limits_for (over.max_record_bytes s.link)) in
      let r = handle over ports source hash now fresh peer h (take h.body_len body) s in
      if_both Stop (not (is_passed v)) _ _ (refused-Stays h _ _ s) (
        if_both Stop (ltb (length body) h.body_len) _ _ (refused-Stays h _ _ s) (
          if_known Stop (is_fatal r.1) _ _ (λ fatal. fatal-Stays r.1 fatal)
            (λ mild. stops r.0 (drop h.body_len body))))

  messages-Stops :
      (fuel : ℕ) (s : ExporterSession T P D) (rest : List ℕ)
      → Stop (messages over ports source hash now fresh peer fuel s rest)
  unfolding messages
  messages-Stops zero s rest = tt
  messages-Stops (suc fuel) s [] = tt
  messages-Stops (suc fuel) s (b ∷ rest) =
      message-Stops (messages over ports source hash now fresh peer fuel) (messages-Stops fuel)
        (b ∷ rest) s (decode_header (b ∷ rest))

  then_read-Stops :
      (again : ExporterSession T P D → ExporterSession T P D × Ending)
      → ((s : ExporterSession T P D) → Stop (again s))
      → (r : ExporterSession T P D × Ending) → Stop r
      → Stop (then_read over ports source hash now fresh peer again r)
  unfolding then_read
  then_read-Stops again stops (s, drained) v = stops s
  then_read-Stops again stops (s, lost) v = v
  then_read-Stops again stops (s, stopped st) v = v

  read_all-Stops :
      (readings : List Reading) (s : ExporterSession T P D)
      → All IsTold readings
      → Stop (read_all over ports source hash now fresh peer readings s)
  unfolding read_all
  read_all-Stops [] s told = tt
  read_all-Stops (gone ∷ more) s told = tt
  read_all-Stops (failed st ∷ more) s told = told.0
  read_all-Stops (arrived [] ∷ more) s told = tt
  read_all-Stops (arrived (b ∷ bytes) ∷ more) s told =
      let s' = record s { last_heard_ns = now; leases = heard now peer.identity_key s.leases } in
      then_read-Stops (read_all over ports source hash now fresh peer more)
        (λ t. read_all-Stops more t told.1)
        (messages over ports source hash now fresh peer (suc (length bytes)) s' (b ∷ bytes))
        (messages-Stops (suc (length bytes)) s' (b ∷ bytes))

  orphan-IsEmptied :
      (s : ExporterSession T P D) → IsEmptied (orphan over ports source hash now fresh peer s)
  unfolding orphan fail_all_transfers reset_reassembly
  orphan-IsEmptied s =
      let held = record s { state = orphaned; leases = quarantine now s.leases } in
      let s' = if is_leased s.state then held else s in
      emptied over transport_lost (abort_on over ports transport_lost s' s'.port)

  after_reading-IsEmptied :
      (r : ExporterSession T P D × Ending)
      → Stop r
      → (after_reading over ports source hash now fresh peer r).1 ≡ transport_lost
      → IsEmptied (after_reading over ports source hash now fresh peer r).0
  unfolding after_reading
  after_reading-IsEmptied (s, drained) v e = absurd (collected-Stays (collect over ports s) e)
  after_reading-IsEmptied (s, lost) v e = orphan-IsEmptied s
  after_reading-IsEmptied (s, stopped st) v e = absurd (v e)

  -- `Early` is how the transport can have been gone before the reading.
  abbrev Loses : Type 0 → ExporterSession T P D → ExporterSession T P D × Status → Type 0
  Loses Early s r = r.1 ≡ transport_lost → (Early × IsUntouched s r.0) ⊎ IsEmptied r.0

  reading-Loses :
      (Early : Type 0) (readings : List Reading) (s t : ExporterSession T P D)
      → All IsTold readings
      → Loses Early s (
          after_reading over ports source hash now fresh peer
            (read_all over ports source hash now fresh peer readings t))
  reading-Loses Early readings s t told e =
      let r = read_all over ports source hash now fresh peer readings t in
      inr (after_reading-IsEmptied r (read_all-Stops readings t told) e)

  flushed-Loses :
      (readings : List Reading) (s : ExporterSession T P D) (r : T × Status)
      → All IsTold readings
      → Loses (r.1 ≡ transport_lost) s (flushed over ports source hash now fresh peer readings s r)
  unfolding flushed
  flushed-Loses readings s (t, ok) told = reading-Loses _ readings s (record s { link = t }) told
  flushed-Loses readings s (t, other) told = λ e. inl (e, refl)

  owing-Loses :
      (readings : List Reading) (s : ExporterSession T P D)
      → All IsTold readings
      → over.pending_tx_bytes s.link ≢ 0
      → Loses
          (IsUnsent over s.link)
          s
          (flushed over ports source hash now fresh peer readings s (over.flush s.link))
  owing-Loses readings s told owes e = elim (flushed-Loses readings s (over.flush s.link) told e) [
    | inl (unsent, same) ↦ inl (inr (owes, unsent), same)
    | inr empty ↦ inr empty
  ]

  -- A round that answers `TransportLost` has ended every transfer and verb, so that none is queued,
  -- in flight or awaited any more, whatever was read before the loss; or the transport was gone
  -- before anything was read, the record layer being down or failing to send what it owes, and the
  -- session is as it was but for the record layer. A reading that fails is to fail with another
  -- status.
  pub pump-lost :
      (readings : List Reading) (s : ExporterSession T P D)
      → All IsTold readings
      → (pump over ports source hash now fresh peer readings s).1 ≡ transport_lost
      → let s' = (pump over ports source hash now fresh peer readings s).0 in
        (IsUnsent over s.link × IsUntouched s s') ⊎ IsEmptied s'
  unfolding pump
  pump-lost readings s told =
      let Answers = Loses (IsUnsent over s.link) s in
      if_known Answers (not (over.is_up s.link)) _ _
        (λ down e. inl (inl (ground (arith, down)), refl))
        (λ up.
          if_known Answers (over.pending_tx_bytes s.link == 0) _ _
            (λ quiet. reading-Loses _ readings s s told)
            (λ owes. owing-Loses readings s told (ground (arith, owes))))
