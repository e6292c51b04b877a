-- ===== src/Session/Exporter/Handlers/Cancels.antt =====
-- airusb/session/ExporterSession: CANCEL.
use airusb_hub.Base.{
  ℕ, ◌+◌, ◌%◌, ◌^◌, Bool, true, false, not, ◌&&◌, Option, none, some, List, [], ◌∷◌, ◌==◌, ltb,
  if◌then◌else◌, lookup, replicate,
}
use airusb_hub.Core.Status.{Status, ok, malformed_frame, detaching, bad_argument, xfer_cancelled}
use airusb_hub.Protocol.Codec.Headers.{Header}
use airusb_hub.Protocol.Codec.Sessions.{CancelBody, decode_cancel, encode_cancel_ack}
use airusb_hub.Session.Exporter.{
  Link, Ports, Pending, InFlight, ExporterSession, is_leased, flight_of,
}
use airusb_hub.Session.Exporter.Sending.{send_simple, emit_complete}
use airusb_hub.Session.Exporter.Outcomes.{on_plane, port_cancel}
use airusb_hub.Session.Exporter.Endings.{requested}
use airusb_hub.Session.Exporter.Handlers.{refuse_message}

-- Scope 1 is the endpoint's, and scope 0 the request's.
unfoldable pub matches : CancelBody → ℕ → ℕ → Bool
matches cb ep request_id =
    if cb.scope == 1
    then ep == cb.ep_addr
    else request_id == cb.target_request_id && ep == cb.ep_addr

unfoldable pub matching : CancelBody → List (ℕ × InFlight) → List ℕ
matching cb [] = []
matching cb ((token, f) ∷ more) =
    let rest = matching cb more in if matches cb f.ep_addr f.request_id then token ∷ rest else rest

module _ {T P D : Type 0} (over : Link T) where
  -- One transfer of a queue, which is stopped or is kept; `again` goes on with those behind it.
  unfoldable pub cancel_front :
      (ℕ → ExporterSession T P D → List Pending × (ExporterSession T P D × ℕ))
      → Pending
      → ℕ
      → ExporterSession T P D
      → Bool
      → List Pending × (ExporterSession T P D × ℕ)
  cancel_front again p stopped s true =
      let s = (emit_complete over (flight_of p) xfer_cancelled 0 true false [] s).0 in
      again ((stopped + 1) % 2 ^ 32) (record s { cancelled = (s.cancelled + 1) % 2 ^ 64 })
  cancel_front again p stopped s false = let rest = again stopped s in (p ∷ rest.0, rest.1)

  -- The queue that is kept, beside the session and how many were stopped.
  unfoldable pub cancel_queue :
      CancelBody
      → List Pending
      → ℕ
      → ExporterSession T P D
      → List Pending × (ExporterSession T P D × ℕ)
  cancel_queue cb [] stopped s = ([], (s, stopped))
  cancel_queue cb (p ∷ q) stopped s =
      cancel_front (cancel_queue cb q) p stopped s (matches cb p.sb.ep_addr p.request_id)

  -- The queue of the endpoint that the body names, if there is one.
  unfoldable pub cancel_queues :
      CancelBody
      → List (ℕ × List Pending)
      → ExporterSession T P D
      → List (ℕ × List Pending) × (ExporterSession T P D × ℕ)
  cancel_queues cb [] s = ([], (s, 0))
  cancel_queues cb ((ep, q) ∷ more) s =
      let front = cancel_queue cb q 0 s in
      let rest = cancel_queues cb more s in
      if ep == cb.ep_addr then ((ep, front.0) ∷ more, front.1) else ((ep, q) ∷ rest.0, rest.1)

module _ {T P D : Type 0} (over : Link T) (ports : Ports P) where
  -- What the port cannot stop stays as it is, with its deadline.
  unfoldable pub cancel_at :
      ℕ → ℕ → ExporterSession T P D → Option InFlight → ExporterSession T P D × ℕ
  cancel_at token stopped s none = (s, stopped)
  cancel_at token stopped s (some f) =
      let tried = port_cancel ports token s in
      if tried.1
      then (on_plane (requested token f) tried.0, (stopped + 1) % 2 ^ 32)
      else (tried.0, stopped)

  unfoldable pub cancel_tokens : List ℕ → ℕ → ExporterSession T P D → ExporterSession T P D × ℕ
  cancel_tokens [] stopped s = (s, stopped)
  cancel_tokens (token ∷ more) stopped s =
      let r = cancel_at token stopped s (lookup token s.plane.in_flight) in
      cancel_tokens more r.1 r.0

  unfoldable pub cancel_transfers : CancelBody → ExporterSession T P D → ExporterSession T P D × ℕ
  cancel_transfers cb s =
      let queued = cancel_queues over cb s.plane.queues s in
      let s = on_plane (λ d. record d { queues = queued.0 }) queued.1.0 in
      cancel_tokens (matching cb s.plane.in_flight) queued.1.1 s

  unfoldable pub cancel_decoded :
      Header → ExporterSession T P D → Option CancelBody → ExporterSession T P D × Status
  cancel_decoded h s none = refuse_message over h malformed_frame "bad CANCEL" s
  cancel_decoded h s (some cb) =
      let r = cancel_transfers cb s in
      let ack =
        encode_cancel_ack
          (record { cancelled_count = r.1; granularity = cb.scope; reserved = replicate 3 0 }) [] in
      if ltb 1 cb.scope
      then refuse_message over h bad_argument "unknown cancellation scope" s
      else if not (cb.ep_addr == h.channel % 256)
      then refuse_message over h bad_argument
          "the cancel names one endpoint in its channel and another in its body" s
      else send_simple over 0x43 ok h.request_id ack r.0

  unfoldable pub handle_cancel :
      Header → List ℕ → ExporterSession T P D → ExporterSession T P D × Status
  handle_cancel h body s =
      if not (is_leased s.state)
      then refuse_message over h detaching "That device is no longer attached." s
      else if not (h.attach_id == s.attach_id)
      then (s, ok)
      else cancel_decoded h s (decode_cancel body)
