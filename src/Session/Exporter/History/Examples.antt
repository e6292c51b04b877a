-- ===== src/Session/Exporter/History/Examples.antt =====
-- A session of two transfers on one endpoint, with a port that never finishes.
use airusb_hub.Base.{
  ℕ, none, ◌⊎◌, ◌+◌, ◌≡◌, ◌≤◌, refl, inl, true, false, some, List, [], ◌∷◌, ◌++◌, length, replicate,
  lookup, put,
}
use airusb_hub.Core.Status.{ok}
use airusb_hub.Core.Manifest.Keyboard.{keyboard}
use airusb_hub.Protocol.Codec.{u16_of, u32_of, u64_of}
use airusb_hub.Protocol.Codec.Headers.{Header, encode_header}
use airusb_hub.Protocol.Codec.Transfers.{SubmitBody, encode_submit}
use airusb_hub.Protocol.Reassembly.{fresh}
use airusb_hub.Session.Lease.{init}
use airusb_hub.Session.Exporter.{
  Link, Ports, Source, Peer, InFlight, leased, idle, ExporterSession, books, credit_urbs,
  credit_bytes, queued_in, permitted, is_pre_trust_message, is_leased, has_port, flight_of,
  queued_transfers, deadline_ms_for, is_ep0,
}
use airusb_hub.Core.Status.{transport_lost, is_fatal}
use airusb_hub.Protocol.Validate.{validate_header, validate_submit}
use airusb_hub.Protocol.Reassembly.{seg_more}
use airusb_hub.Session.Lease.{heard, silence_expired}
use airusb_hub.Core.Clock.{after_ms, expired}
use airusb_hub.Protocol.Codec.Headers.{decode_header}
use airusb_hub.Protocol.Codec.Transfers.{decode_submit}
use airusb_hub.Session.Exporter.Queue.{
  bytes_in, enqueue_transfer, has_credit, pending_of, push_back, admit, admit_queues, admit_queue,
  admit_front, admitted, may_admit, taken,
}
use airusb_hub.Session.Exporter.Outcomes.{collect, collect_outcomes, on_plane}
use airusb_hub.Session.Exporter.Endings.{
  sweep_deadlines, sweep_queues, sweep_tokens, sweep_queue, sweep_front, overdue,
}
use airusb_hub.Session.Exporter.Handlers.{handle_submit, submit_decoded, is_passed}
use airusb_hub.Session.Exporter.Pump.{
  Reading, arrived, gone, pump, after_reading, read_all, handle, dispatch, then_read, collected,
  collected_again, swept, lease_timer, is_owed,
}
use airusb_hub.Session.Exporter.Measure.Bounds.{IsSound, pump-IsSound}
use airusb_hub.Session.Exporter.History.Strangers.{HoldsNothing, rounds-unpaired}
use airusb_hub.Session.Exporter.History.Losses.{IsUnsent, IsUntouched, IsEmptied, pump-lost}
use airusb_hub.Session.Exporter.History.{
  Round, rounds, no_books-IsSound, rounds-alone, rounds-once, rounds-credit, count_keys,
  count_flights, count_queues,
}

abbrev over : Link (List (List ℕ))
over = record {
  is_up = λ t. true;
  send_record = λ t bytes. (bytes ∷ t, ok);
  flush = λ t. (t, ok);
  pending_tx_bytes = λ t. 0;
  max_plaintext_bytes = λ t. 1024;
  max_record_bytes = λ t. 1040;
}

abbrev ports : Ports ℕ
ports = record {
  submit = λ n token t. (n + 1, ok);
  cancel = λ n token. (n, false);
  clear_halt = λ n token ep. (n, ok);
  poll = λ n. (n, []);
  abort_all = λ n st. (n, []);
  can_idle = λ n. true;
}

abbrev source : Source ℕ ℕ
source = record {
  list = λ d. (d, []);
  claim = λ d uid.
      (d, record { status = ok; port = some 0; manifest = keyboard; config_value = 1; why = [] });
  release = λ d uid. d;
}

abbrev sb : SubmitBody
sb = record {
  ep_addr = 2;
  xfer_type = 2;
  dir = 0;
  xflags = 0;
  buffer_len = 4;
  timeout_ms = 0;
  iso_pkt_count = 0;
  interval = 0;
  stream_id = 0;
  setup = replicate 8 0;
  submit_ts_ns = 0;
}

abbrev header : ℕ → Header
header id = record {
  type = 0x40;
  flags = 2;
  channel = 0x102;
  body_len = 44;
  attach_id = 7;
  seg_offset = 0;
  request_id = id;
  status = 0;
  device_epoch = 0;
  total_len = 4;
}

abbrev session : ExporterSession (List (List ℕ)) ℕ ℕ
session = record {
  state = leased;
  why = [];
  port = some 0;
  manifest = keyboard;
  config_value = 1;
  uid = replicate 16 0;
  attach_id = 7;
  lease_epoch = 1;
  attach_slot = 1;
  handled = 0;
  transfers = 0;
  cancelled = 0;
  last_heard_ns = 0;
  plane = record { queues = []; in_flight = []; next_token = 1; busy_endpoint = [] };
  verbs = [];
  reset_worst = ok;
  reset_pending = 0;
  rx_active = false;
  rx_channel = 0;
  rx_request_id = 0;
  rx_sb = sb;
  rx =
      fresh
        (record { max_transfer_bytes = 1_048_576; arena_bytes = 8_388_608; max_in_flight = 64 });
  link = [];
  devices = 0;
  leases = init;
  accepted = [];
  answered = [];
}

abbrev peer : Peer
peer = record { identity_key = replicate 32 1; is_paired = true; grants = 3 }

abbrev stranger : Peer
stranger = record peer { is_paired = false }

submit_record : ℕ → List ℕ
submit_record id = encode_header (header id) [] ++ (encode_submit sb [] ++ (1 ∷ 2 ∷ 3 ∷ 4 ∷ []))

abbrev two : Round
two = record {
  now = 5;
  fresh = [];
  peer = peer;
  readings = arrived (submit_record 8) ∷ arrived (submit_record 9) ∷ [];
}

abbrev ended : ExporterSession (List (List ℕ)) ℕ ℕ
ended = rounds over ports source (λ m. []) (two ∷ []) session

abbrev flight : InFlight
flight = record {
  channel = 0x102;
  request_id = 8;
  ep_addr = 2;
  sb = sb;
  deadline = record { at_ns = 30_000_000_005; is_set = true };
  cancel_requested = false;
}

-- After the round the first transfer is on the device, and the second waits in the queue.
flight_found : lookup 1 ended.plane.in_flight ≡ some flight
unfolding u16_of u32_of u64_of is_ep0 rounds submit_record lookup pump after_reading read_all handle
    dispatch permitted is_pre_trust_message handle_submit submit_decoded enqueue_transfer has_credit
    pending_of push_back admit admit_queues admit_queue admit_front admitted may_admit taken
    flight_of is_leased has_port is_passed decode_header encode_header decode_submit encode_submit
    validate_header validate_submit seg_more collect sweep_deadlines sweep_queues sweep_tokens
    sweep_queue sweep_front overdue lease_timer is_owed queued_transfers heard silence_expired
    collected collected_again swept on_plane put after_ms expired deadline_ms_for is_fatal
    collect_outcomes then_read
flight_found = refl

abbrev first_token : ℕ
first_token = 1

rounds-alone_example : first_token ≡ first_token
rounds-alone_example =
    rounds-alone over ports source (λ m. []) (two ∷ []) session first_token first_token flight
      flight refl flight_found flight_found (inl refl)

rounds-credit_example :
    (queued_in ended.plane.queues + length ended.plane.in_flight ≤ credit_urbs)
    × (bytes_in ended.plane.queues ≤ credit_bytes)
rounds-credit_example = rounds-credit over ports source (λ m. []) (two ∷ []) session refl

rounds-once_example :
    count_keys 0x102 9 ended.answered
      + (count_flights 0x102 9 ended.plane.in_flight + count_queues 0x102 9 ended.plane.queues)
    ≤ count_keys 0x102 9 ended.accepted
rounds-once_example = rounds-once over ports source (λ m. []) (two ∷ []) session 0x102 9 refl

pump-IsSound_example :
    IsSound (books (pump over ports source (λ m. []) 5 [] peer two.readings session).0)
pump-IsSound_example =
    pump-IsSound over ports source (λ m. []) 5 [] peer two.readings session no_books-IsSound

-- A third request, and then the loss.
abbrev loss : List Reading
loss = arrived (submit_record 10) ∷ gone ∷ []

loss_found : (pump over ports source (λ m. []) 6 [] peer loss ended).1 ≡ transport_lost
unfolding u16_of u32_of u64_of is_ep0 rounds submit_record lookup pump after_reading read_all handle
    dispatch permitted is_pre_trust_message handle_submit submit_decoded enqueue_transfer has_credit
    pending_of push_back admit admit_queues admit_queue admit_front admitted may_admit taken
    flight_of is_leased has_port is_passed decode_header encode_header decode_submit encode_submit
    validate_header validate_submit seg_more collect sweep_deadlines sweep_queues sweep_tokens
    sweep_queue sweep_front overdue lease_timer is_owed queued_transfers heard silence_expired
    collected collected_again swept on_plane put after_ms expired deadline_ms_for is_fatal
    collect_outcomes then_read
loss_found = refl

pump-lost_example :
    let s' = (pump over ports source (λ m. []) 6 [] peer loss ended).0 in
    (IsUnsent over ended.link × IsUntouched ended s') ⊎ IsEmptied s'
pump-lost_example =
    pump-lost over ports source (λ m. []) 6 [] peer loss ended (tt, (tt, tt)) loss_found

-- An unpaired peer submits a transfer and says goodbye.
abbrev intrusion : Round
intrusion = record {
  now = 5;
  fresh = [];
  peer = stranger;
  readings =
      arrived (submit_record 8)
      ∷ arrived (encode_header (record (header 9) { type = 0x05; body_len = 0; total_len = 0 }) [])
      ∷ [];
}

abbrev unattached : ExporterSession (List (List ℕ)) ℕ ℕ
unattached = record session { state = idle; port = none }

rounds-unpaired_example :
    HoldsNothing 0 init.s.owner init.next_attach_id
      (rounds over ports source (λ m. []) (intrusion ∷ []) unattached)
unfolding is_leased
rounds-unpaired_example =
    rounds-unpaired over ports source (λ m. []) 0 init.s.owner init.next_attach_id (intrusion ∷ [])
      unattached (refl, tt) (refl, refl, refl, refl, refl, refl, refl, refl, refl)
