-- ===== src/Session/Exporter/Pump.antt =====
-- airusb/session/ExporterSession: the dispatch of a message, and one round of the event loop.
--
-- What `receiveRecord` answers in a round is a list of readings, whose end is `Busy`. The round has
-- one reading of the clock.
mod Fuel
use airusb_hub.Base.{
  ℕ, zero, suc, ◌+◌, ◌%◌, ◌^◌, Bool, not, ◌&&◌, ◌||◌, Option, none, some, List, [], ◌∷◌, ltb, ◌==◌,
  if◌then◌else◌, length, take, drop, codes,
}
use airusb_hub.Core.Status.{
  Status, ok, malformed_frame, not_paired, unsupported_message, transport_lost, xfer_timeout,
  is_fatal,
}
use airusb_hub.Protocol.Codec.Headers.{Header, decode_header, header_size}
use airusb_hub.Protocol.Validate.{validate_header}
use airusb_hub.Session.Lease.{heard, quarantine, silence_expired}
use airusb_hub.Session.Exporter.{
  Link, Ports, Source, Peer, orphaned, closed, ExporterSession, permitted, is_leased,
  queued_transfers,
}
use airusb_hub.Session.Exporter.Sending.{blank_header}
use airusb_hub.Session.Exporter.Queue.{admit}
use airusb_hub.Session.Exporter.Outcomes.{collect}
use airusb_hub.Session.Exporter.Endings.{fail_all_transfers, sweep_deadlines}
use airusb_hub.Session.Exporter.Handlers.{
  refuse_message, reset_reassembly, limits_for, is_passed, handle_submit, handle_data,
}
use airusb_hub.Session.Exporter.Handlers.Cancels.{handle_cancel}
use airusb_hub.Session.Exporter.Handlers.Verbs.{handle_clear_halt, handle_device_reset}
use airusb_hub.Session.Exporter.Handlers.Control.{
  handle_ping, handle_list_devices, handle_detach, close,
}
use airusb_hub.Session.Exporter.Attach.{handle_attach}

pub data Reading : Type 0 where
  arrived : List ℕ → Reading
  gone : Reading
  failed : Status → Reading

-- How the reading of a round ended: nothing more to read, the transport gone, or a return from
-- `pump`.
pub data Ending : Type 0 where
  drained lost : Ending
  stopped : Status → Ending

unfoldable pub is_owed : {T P D : Type 0} → ExporterSession T P D → Bool
is_owed s = not (length s.plane.in_flight == 0) || not (queued_transfers s.plane == 0)

module _ {T P D : Type 0} (over : Link T) (ports : Ports P) (source : Source D P)
    (hash : List ℕ → List ℕ) (now : ℕ) (fresh : List ℕ) (peer : Peer) where
  -- The handler of the message's type.
  unfoldable pub dispatch : Header → List ℕ → ExporterSession T P D → ExporterSession T P D × Status
  dispatch h body s =
      if h.type == 0x03
      then handle_ping over now h body s
      else if h.type == 0x13
      then handle_list_devices over source peer h s
      else if h.type == 0x20
      then handle_attach over ports source hash now fresh peer h body s
      else if h.type == 0x23
      then handle_detach over ports source now peer h body s
      else if h.type == 0x40
      then handle_submit over now h body s
      else if h.type == 0x44
      then handle_data over now h body s
      else if h.type == 0x42
      then handle_cancel over ports h body s
      else if h.type == 0x32
      then handle_clear_halt over ports h s
      else if h.type == 0x33
      then handle_device_reset over ports h s
      else if h.type == 0x05
      then (close over ports source (record s { state = closed }), ok)
      else refuse_message over h unsupported_message
          "That request is not supported by this version." s

  unfoldable pub handle : Header → List ℕ → ExporterSession T P D → ExporterSession T P D × Status
  handle h body s =
      let s' = record s { handled = (s.handled + 1) % 2 ^ 64 } in
      if permitted peer h.type
      then dispatch h body s'
      else refuse_message over h not_paired "This Mac has not been paired with yours yet." s'

  -- From the header on; `again` takes what is behind the message.
  unfoldable pub message_at :
      (ExporterSession T P D → List ℕ → ExporterSession T P D × Ending)
      → List ℕ
      → ExporterSession T P D
      → Option Header
      → ExporterSession T P D × Ending
  message_at again rest s none =
      let r = refuse_message over blank_header malformed_frame "unparseable header" s in
      (r.0, stopped r.1)
  message_at again rest s (some h) =
      let body = drop header_size rest in
      let v = validate_header h (length body) (limits_for (over.max_record_bytes s.link)) in
      let invalid = refuse_message over h v.status "header failed validation" s in
      let short = refuse_message over h malformed_frame "body shorter than declared" s in
      let r = handle h (take h.body_len body) s in
      if not (is_passed v)
      then (invalid.0, stopped invalid.1)
      else if ltb (length body) h.body_len
      then (short.0, stopped short.1)
      else if is_fatal r.1
      then (r.0, stopped r.1)
      else again r.0 (drop h.body_len body)

  -- The messages of one record. Each takes 32 bytes at least, so the record's length is fuel
  -- enough.
  unfoldable pub messages : ℕ → ExporterSession T P D → List ℕ → ExporterSession T P D × Ending
  unfolding message_at
  messages zero s rest = (s, drained)
  messages (suc fuel) s [] = (s, drained)
  messages (suc fuel) s (b ∷ rest) =
      message_at (messages fuel) (b ∷ rest) s (decode_header (b ∷ rest))

  unfoldable pub then_read :
      (ExporterSession T P D → ExporterSession T P D × Ending)
      → ExporterSession T P D × Ending
      → ExporterSession T P D × Ending
  then_read again (s, drained) = again s
  then_read again (s, other) = (s, other)

  unfoldable pub read_all : List Reading → ExporterSession T P D → ExporterSession T P D × Ending
  unfolding messages then_read
  read_all [] s = (s, drained)
  read_all (gone ∷ more) s = (s, lost)
  read_all (failed st ∷ more) s = (s, stopped st)
  read_all (arrived [] ∷ more) s = (s, drained)
  read_all (arrived (b ∷ bytes) ∷ more) s =
      let s = record s { last_heard_ns = now; leases = heard now peer.identity_key s.leases } in
      then_read (read_all more) (messages (suc (length bytes)) s (b ∷ bytes))

  -- The transport is gone: the lease is kept for the peer, and every transfer is answered here.
  unfoldable pub orphan : ExporterSession T P D → ExporterSession T P D
  orphan s =
      let held = record s { state = orphaned; leases = quarantine now s.leases } in
      reset_reassembly
        (fail_all_transfers over ports transport_lost (if is_leased s.state then held else s))

  unfoldable pub lease_timer : ExporterSession T P D → ExporterSession T P D
  lease_timer s =
      let held = record s {
        leases = quarantine now s.leases;
        state = orphaned;
        why = codes "the importer stopped answering; the device is held for it";
      } in
      if not (is_owed s) && (is_leased s.state && silence_expired now s.leases)
      then fail_all_transfers over ports xfer_timeout held
      else s

  -- The rest of the round, from a session and the status of a step that may end it.
  unfoldable pub swept : ExporterSession T P D × Status → ExporterSession T P D × Status
  swept (s, st) = if is_fatal st then (s, st) else (lease_timer s, ok)

  unfoldable pub collected_again : ExporterSession T P D × Status → ExporterSession T P D × Status
  unfolding swept
  collected_again (s, st) =
      let present = record s { leases = heard now peer.identity_key s.leases } in
      if is_fatal st
      then (s, st)
      else swept (sweep_deadlines over ports now (if is_owed s then present else s))

  unfoldable pub collected : ExporterSession T P D × Status → ExporterSession T P D × Status
  unfolding collected_again
  collected (s, st) =
      if is_fatal st then (s, st) else collected_again (collect over ports (admit over ports s))

  unfoldable pub after_reading : ExporterSession T P D × Ending → ExporterSession T P D × Status
  unfolding collected
  after_reading (s, drained) = collected (collect over ports s)
  after_reading (s, lost) = (orphan s, transport_lost)
  after_reading (s, stopped st) = (s, st)

  unfoldable pub flushed :
      List Reading → ExporterSession T P D → T × Status → ExporterSession T P D × Status
  unfolding after_reading
  flushed readings s (t, ok) = after_reading (read_all readings (record s { link = t }))
  flushed readings s (t, other) = (record s { link = t }, other)

  unfoldable pub pump : List Reading → ExporterSession T P D → ExporterSession T P D × Status
  unfolding flushed
  pump readings s =
      if not (over.is_up s.link)
      then (s, transport_lost)
      else if over.pending_tx_bytes s.link == 0
      then after_reading (read_all readings s)
      else flushed readings s (over.flush s.link)
