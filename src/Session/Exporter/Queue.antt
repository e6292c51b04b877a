-- ===== src/Session/Exporter/Queue.antt =====
-- airusb/session/ExporterSession: the queues of the endpoints, and what the device is given.
use airusb_hub.Base.{
  ℕ, ◌+◌, ◌*◌, ◌%◌, ◌^◌, Bool, true, false, not, ◌&&◌, Option, none, some, List, [], ◌∷◌, ◌++◌, ltb,
  leb, ◌==◌, if◌then◌else◌, length, get_or, bit_and, bit_or, sum_of, lookup, put,
}
use airusb_hub.Core.Status.{Status, ok, busy, no_resources}
use airusb_hub.Core.Clock.{after_ms}
use airusb_hub.Core.Usb.{SetupPacket}
use airusb_hub.Protocol.Codec.Transfers.{SubmitBody}
use airusb_hub.Session.Exporter.{
  AsyncTransfer, Link, Ports, Pending, InFlight, Plane, ExporterSession, credit_urbs, credit_bytes,
  is_ep0, deadline_ms_for, queued_in, flight_of, is_leased, has_port,
}
use airusb_hub.Session.Exporter.Sending.{emit_complete}

abbrev pub bytes_in : List (ℕ × List Pending) → ℕ
bytes_in = sum_of (λ e. sum_of (λ p. length p.data_out) e.1)

-- `_queues[epAddr].push_back(p)`.
unfoldable pub push_back : ℕ → Pending → List (ℕ × List Pending) → List (ℕ × List Pending)
push_back ep p [] = (ep, p ∷ []) ∷ []
push_back ep p ((at, q) ∷ more) =
    let rest = push_back ep p more in
    if at == ep
    then (at, q ++ (p ∷ [])) ∷ more
    else if ltb ep at
    then (ep, p ∷ []) ∷ (at, q) ∷ more
    else (at, q) ∷ rest

unfoldable pub has_credit : Plane → List ℕ → Bool
has_credit d data_out =
    if leb credit_urbs (queued_in d.queues + length d.in_flight)
    then false
    else not (ltb credit_bytes (bytes_in d.queues + length data_out))

unfoldable pub pending_of : ℕ → ℕ → ℕ → SubmitBody → List ℕ → Pending
pending_of now channel request_id sb data_out = record {
  channel = channel;
  request_id = request_id;
  sb = sb;
  data_out = data_out;
  deadline = after_ms now (deadline_ms_for sb.xfer_type);
}

-- No control transfer is on the device.
unfoldable pub no_ep0 : List (ℕ × InFlight) → Bool
no_ep0 [] = true
no_ep0 ((token, f) ∷ more) = if is_ep0 f.ep_addr then false else no_ep0 more

unfoldable pub is_free_endpoint : Option ℕ → Bool
is_free_endpoint none = true
is_free_endpoint (some token) = false

unfoldable pub may_admit : ℕ → Plane → Bool
unfolding no_ep0 is_free_endpoint
may_admit ep d =
    if is_ep0 ep
    then length d.in_flight == 0
    else if no_ep0 d.in_flight
    then is_free_endpoint (lookup ep d.busy_endpoint)
    else false

le16 : List ℕ → ℕ → ℕ
le16 setup i = bit_or (get_or setup i 0) (get_or setup (i + 1) 0 * 2 ^ 8) % 2 ^ 16

abbrev no_setup : SetupPacket
no_setup = record { bm_request_type = 0; b_request = 0; w_value = 0; w_index = 0; w_length = 0 }

setup_of : List ℕ → SetupPacket
unfolding le16
setup_of setup = record {
  bm_request_type = get_or setup 0 0;
  b_request = get_or setup 1 0;
  w_value = le16 setup 2;
  w_index = le16 setup 4;
  w_length = le16 setup 6;
}

unfoldable pub transfer_of : Pending → AsyncTransfer
unfolding setup_of
transfer_of p = record {
  ep_addr = p.sb.ep_addr;
  xfer_type = p.sb.xfer_type;
  dir = p.sb.dir;
  buffer_len = p.sb.buffer_len;
  setup = if p.sb.xfer_type == 0 then setup_of p.sb.setup else no_setup;
  data_out = p.data_out;
  timeout_ms = deadline_ms_for p.sb.xfer_type;
  zero_packet = not (bit_and p.sb.xflags 2 == 0);
  short_not_ok = not (bit_and p.sb.xflags 1 == 0);
}

-- The transfer is the device's: it takes the endpoint's slot.
unfoldable pub taken : ℕ → ℕ → Pending → Plane → Plane
taken ep token p d = record d {
  in_flight = put token (record (flight_of p) { deadline = p.deadline }) d.in_flight;
  busy_endpoint = put ep token d.busy_endpoint;
}

module _ {T P D : Type 0} (over : Link T) where
  -- The channel and the request id are those of the header that began the transfer.
  unfoldable pub enqueue_transfer :
      ℕ → ℕ → ℕ → SubmitBody → List ℕ → ExporterSession T P D → ExporterSession T P D × Status
  enqueue_transfer now channel request_id sb data_out s =
      let p = pending_of now channel request_id sb data_out in
      let s = record s { accepted = (channel, request_id) ∷ s.accepted } in
      if has_credit s.plane data_out
      then (
        record s { plane = record s.plane { queues = push_back sb.ep_addr p s.plane.queues } },
        ok,
      )
      else emit_complete over (flight_of p) no_resources 0 false false [] s

module _ {T P D : Type 0} (over : Link T) (ports : Ports P) where
  -- What follows the port's answer to the front `p` of the queue of `ep`: the queue, and the
  -- session.
  unfoldable pub admitted :
      ℕ
      → Pending
      → List Pending
      → ℕ
      → ExporterSession T P D
      → Status
      → List Pending × ExporterSession T P D
  admitted ep p q token s busy = (p ∷ q, s)
  admitted ep p q token s ok = (q, record s { plane = taken ep token p s.plane })
  admitted ep p q token s other = (
    q,
    (emit_complete over (record (flight_of p) { deadline = p.deadline }) other 0 false false []
        s).0,
  )

  unfoldable pub admit_front :
      ℕ
      → Pending
      → List Pending
      → ExporterSession T P D
      → Option P
      → List Pending × ExporterSession T P D
  admit_front ep p q s none = (p ∷ q, s)
  admit_front ep p q s (some port) =
      let token = s.plane.next_token in
      let sent = ports.submit port token (transfer_of p) in
      let s = record s {
        port = some sent.0;
        plane = record s.plane { next_token = (token + 1) % 2 ^ 64 };
      } in
      admitted ep p q token s sent.1

  unfoldable pub admit_queue :
      ℕ → List Pending → ExporterSession T P D → List Pending × ExporterSession T P D
  admit_queue ep [] s = ([], s)
  admit_queue ep (p ∷ q) s =
      if may_admit ep s.plane then admit_front ep p q s s.port else (p ∷ q, s)

  -- One pass over the endpoints. What is admitted does not depend on the queues behind.
  unfoldable pub admit_queues :
      List (ℕ × List Pending)
      → ExporterSession T P D
      → List (ℕ × List Pending) × ExporterSession T P D
  admit_queues [] s = ([], s)
  admit_queues ((ep, q) ∷ more) s =
      let front = admit_queue ep q s in
      let rest = admit_queues more front.1 in ((ep, front.0) ∷ rest.0, rest.1)

  unfoldable pub admit : ExporterSession T P D → ExporterSession T P D
  admit s =
      let done = admit_queues s.plane.queues s in
      if is_leased s.state && has_port s.port
      then record (done.1) { plane = record (done.1).plane { queues = done.0 } }
      else s
