-- ===== src/Session/Exporter/Handlers/Control.antt =====
-- airusb/session/ExporterSession: PING, LIST_DEVICES and DETACH, and the end of the session.
use airusb_hub.Base.{
  ℕ, ◌+◌, Bool, true, false, not, Option, none, some, List, [], ltb, if◌then◌else◌, length,
}
use airusb_hub.Core.Status.{
  Status, ok, malformed_frame, not_permitted, not_found, xfer_cancelled, detaching,
}
use airusb_hub.Protocol.Codec.Headers.{Header}
use airusb_hub.Protocol.Messages.{
  PingBody, encode_ping, decode_ping, DetachBody, DetachOkBody, decode_detach, encode_detach_ok,
}
use airusb_hub.Protocol.Messages.Listing.{encode_device_list}
use airusb_hub.Session.Lease.{LeaseState, free, release}
use airusb_hub.Session.Exporter.{
  Link, Ports, Source, Peer, State, idle, leased, draining, orphaned, closed, ExporterSession,
  may_list, has_port, queued_transfers,
}
use airusb_hub.Session.Exporter.Sending.{send_simple}
use airusb_hub.Session.Exporter.Endings.{fail_all_transfers}
use airusb_hub.Session.Exporter.Handlers.{refuse_message, reset_reassembly}

-- Saturated to 32 bits.
unfoldable pub saturated : ℕ → ℕ
saturated n = if ltb 0xFFFFFFFF n then 0xFFFFFFFF else n

unfoldable pub is_attached : State → Bool
is_attached leased = true
is_attached orphaned = true
is_attached other = false

unfoldable pub is_free : LeaseState → Bool
is_free free = true
is_free other = false

-- `if (_state != State::Closed) _state = State::Idle`.
unfoldable pub ended : State → State
ended closed = closed
ended other = idle

module _ {T P D : Type 0} (over : Link T) where
  unfoldable pub ping_decoded :
      ℕ → Header → ExporterSession T P D → Option PingBody → ExporterSession T P D × Status
  ping_decoded now h s none = refuse_message over h malformed_frame "bad PING" s
  ping_decoded now h s (some p) =
      let pong : PingBody = record {
        ping_ts_ns = p.ping_ts_ns;
        echo_ts_ns = now;
        credit_urbs_view = 0;
        credit_bytes_view = 0;
      } in
      send_simple over 0x04 ok h.request_id (encode_ping pong []) s

  unfoldable pub handle_ping :
      ℕ → Header → List ℕ → ExporterSession T P D → ExporterSession T P D × Status
  unfolding ping_decoded
  handle_ping now h body s = ping_decoded now h s (decode_ping body)

module _ {T P D : Type 0} (over : Link T) (source : Source D P) where
  unfoldable pub handle_list_devices :
      Peer → Header → ExporterSession T P D → ExporterSession T P D × Status
  handle_list_devices peer h s =
      let listed = source.list s.devices in
      if not (may_list peer)
      then refuse_message over h not_permitted "This Mac is not allowed to see your devices." s
      else send_simple over 0x14 ok h.request_id (encode_device_list listed.1 [])
          (record s { devices = listed.0 })

module _ {T P D : Type 0} (over : Link T) (ports : Ports P) (source : Source D P) where
  -- From `resetReassembly` on.
  unfoldable pub detached :
      ℕ → Peer → Header → ExporterSession T P D → ExporterSession T P D × Status
  detached now peer h s =
      let s = record (reset_reassembly s) { state = draining } in
      let outstanding = length s.plane.in_flight + queued_transfers s.plane in
      let s = fail_all_transfers over ports xfer_cancelled s in
      let answer : DetachOkBody = record {
        urbs_completed = saturated s.transfers;
        urbs_cancelled = saturated outstanding;
        bytes_dropped = 0;
      } in
      let sent = send_simple over 0x24 ok h.request_id (encode_detach_ok answer []) s in
      let s = sent.0 in
      (
        record s {
          leases = release now peer.identity_key s.leases;
          devices = source.release s.devices s.uid;
          port = none;
          attach_id = 0;
          state = idle;
        },
        sent.1,
      )

  unfoldable pub detach_decoded :
      ℕ → Peer → Header → ExporterSession T P D → Option DetachBody → ExporterSession T P D × Status
  detach_decoded now peer h s none = refuse_message over h malformed_frame "bad DETACH" s
  detach_decoded now peer h s (some d) =
      if is_attached s.state
      then detached now peer h s
      else refuse_message over h not_found "Nothing is attached." s

  unfoldable pub handle_detach :
      ℕ → Peer → Header → List ℕ → ExporterSession T P D → ExporterSession T P D × Status
  unfolding detach_decoded
  handle_detach now peer h body s = detach_decoded now peer h s (decode_detach body)

  -- The capture ends with the session only where the lease is free.
  unfoldable pub close : ExporterSession T P D → ExporterSession T P D
  close s =
      let s = reset_reassembly s in
      let failed = fail_all_transfers over ports detaching s in
      let released =
        if is_free failed.leases.s.state
        then source.release failed.devices failed.uid
        else failed.devices in
      let s' = record failed { devices = released; port = none } in
      if has_port s.port
      then record s' { attach_id = 0; state = ended s'.state }
      else record s { attach_id = 0; state = ended s.state }
