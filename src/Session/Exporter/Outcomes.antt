-- ===== src/Session/Exporter/Outcomes.antt =====
-- airusb/session/ExporterSession: what the port reports is collected.
use airusb_hub.Base.{
  ℕ, ◌-◌, Bool, true, false, Option, none, some, List, [], ◌∷◌, ◌==◌, if◌then◌else◌, lookup, erase,
}
use airusb_hub.Core.Status.{Status, ok, is_fatal}
use airusb_hub.Session.Exporter.{
  AsyncOutcome, Link, Ports, InFlight, PendingVerb, Plane, ExporterSession,
}
use airusb_hub.Session.Exporter.Sending.{send_simple, emit_complete}

-- wire::Type::CtrlAck.
abbrev pub ctrl_ack : ℕ
ctrl_ack = 0x36

unfoldable pub is_ok : Status → Bool
is_ok ok = true
is_ok other = false

-- The first failure is kept.
unfoldable pub first_failure : Status → Status → Status
unfolding is_ok
first_failure kept new = if is_ok kept then new else kept

-- `if (isFatal(s)) worst = s`.
unfoldable pub last_fatal : Status → Status → Status
last_fatal worst new = if is_fatal new then new else worst

-- The slot that the token holds, in the first endpoint that it holds.
unfoldable pub free_slot : ℕ → List (ℕ × ℕ) → List (ℕ × ℕ)
free_slot token [] = []
free_slot token ((ep, at) ∷ more) = if at == token then more else (ep, at) ∷ free_slot token more

unfoldable pub retired : ℕ → Plane → Plane
retired token d = record d { in_flight = erase token d.in_flight }

unfoldable pub freed : ℕ → Plane → Plane
freed token d = record d { busy_endpoint = free_slot token d.busy_endpoint }

module _ {T P D : Type 0} where
  unfoldable pub on_plane : (Plane → Plane) → ExporterSession T P D → ExporterSession T P D
  on_plane change s = record s { plane = change s.plane }

module _ {T P D : Type 0} (over : Link T) where
  unfoldable pub acknowledge : Status → ℕ → ExporterSession T P D → ExporterSession T P D
  acknowledge st request_id s =
      if request_id == 0 then s else (send_simple over ctrl_ack st request_id [] s).0

  -- A verb's outcome; `v` is what was erased from the verbs.
  unfoldable pub verb_done :
      AsyncOutcome → PendingVerb → ExporterSession T P D → ExporterSession T P D
  unfolding acknowledge
  verb_done o v s =
      let s' = record s {
        reset_pending = s.reset_pending - 1;
        reset_worst = first_failure s.reset_worst o.status;
      } in
      if v.is_reset
      then acknowledge s'.reset_worst v.request_id s'
      else acknowledge o.status v.request_id s

  -- The transfer of the token is erased before its COMPLETE is sent. A token that no transfer has
  -- is that of a late outcome.
  unfoldable pub transfer_done :
      AsyncOutcome → Option InFlight → ExporterSession T P D → ExporterSession T P D × Status
  transfer_done o none s = (s, ok)
  transfer_done o (some f) s =
      emit_complete over f o.status o.actual_len o.cancelled o.zlp_sent o.data_in
        (on_plane (retired o.token) s)

  unfoldable pub outcome_at :
      AsyncOutcome → Option PendingVerb → ExporterSession T P D → ExporterSession T P D × Status
  outcome_at o (some v) s = (verb_done o v (record s { verbs = erase o.token s.verbs }), ok)
  outcome_at o none s =
      transfer_done o (lookup o.token s.plane.in_flight) (on_plane (freed o.token) s)

  unfoldable pub collect_outcomes :
      List AsyncOutcome → Status → ExporterSession T P D → ExporterSession T P D × Status
  collect_outcomes [] worst s = (s, worst)
  collect_outcomes (o ∷ os) worst s =
      let r = outcome_at o (lookup o.token s.verbs) s in
      collect_outcomes os (last_fatal worst r.1) r.0

module _ {T P D : Type 0} (over : Link T) (ports : Ports P) where
  unfoldable pub collect_from : ExporterSession T P D → Option P → ExporterSession T P D × Status
  collect_from s none = (s, ok)
  collect_from s (some port) =
      let polled = ports.poll port in
      collect_outcomes over polled.1 ok (record s { port = some polled.0 })

  unfoldable pub collect : ExporterSession T P D → ExporterSession T P D × Status
  unfolding collect_from
  collect s = collect_from s s.port

module _ {T P D : Type 0} (ports : Ports P) where
  -- `_port && _port->cancel(token)`.
  unfoldable pub cancel_on : ℕ → ExporterSession T P D → Option P → ExporterSession T P D × Bool
  cancel_on token s none = (s, false)
  cancel_on token s (some port) =
      let done = ports.cancel port token in (record s { port = some done.0 }, done.1)

  unfoldable pub port_cancel : ℕ → ExporterSession T P D → ExporterSession T P D × Bool
  unfolding cancel_on
  port_cancel token s = cancel_on token s s.port
