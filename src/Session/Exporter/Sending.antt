-- ===== src/Session/Exporter/Sending.antt =====
-- airusb/session/ExporterSession: what the session sends.
use airusb_hub.Base.{
  ℕ, ◌+◌, ◌-◌, ◌%◌, ◌^◌, Bool, true, false, List, [], ◌∷◌, ◌++◌, ltb, leb, ◌==◌, if◌then◌else◌,
  length, bit_or, codes,
}
use airusb_hub.Core.Status.{Status, ok, internal, transport_lost, code, is_fatal}
use airusb_hub.Protocol.Codec.Headers.{Header, encode_header, header_size}
use airusb_hub.Protocol.Codec.Transfers.{CompleteBody, encode_complete, body_complete}
use airusb_hub.Protocol.Segmentation.{emit_transfer, flag_seg_first}
use airusb_hub.Protocol.Messages.{build_error}
use airusb_hub.Session.Exporter.{Link, ExporterSession, InFlight}

abbrev pub blank_header : Header
blank_header = record {
  type = 0;
  flags = 0;
  channel = 0;
  body_len = 0;
  attach_id = 0;
  seg_offset = 0;
  request_id = 0;
  status = 0;
  device_epoch = 0;
  total_len = 0;
}

is_ok : Status → Bool
is_ok ok = true
is_ok other = false

-- The COMPLETE of a transfer, with its flags SHORT, WAS_CANCELLED and ZLP_SENT.
unfoldable pub complete_of : InFlight → Status → ℕ → Bool → Bool → List ℕ → CompleteBody
unfolding is_ok
complete_of f st actual_len cancelled zlp_sent payload =
    let is_in = f.sb.dir == 1 in
    let actual = if is_in then length payload % 2 ^ 32 else actual_len in
    let short = if is_ok st then if ltb actual f.sb.buffer_len then 1 else 0 else 0 in
    record {
      ep_addr = f.sb.ep_addr;
      xfer_type = f.sb.xfer_type;
      dir = f.sb.dir;
      cflags = bit_or (bit_or short (if cancelled then 4 else 0)) (if zlp_sent then 2 else 0);
      requested_len = f.sb.buffer_len;
      actual_len = actual;
      payload_len = if is_in then length payload % 2 ^ 32 else 0;
      iso_pkt_count = 0;
      error_count = 0;
      start_frame = 0;
      reserved = 0;
      submit_ts_ns = f.sb.submit_ts_ns;
    }

unfoldable pub complete_header : InFlight → ℕ → Status → Header
complete_header f attach_id st = record blank_header {
  type = 0x41;
  channel = f.channel;
  attach_id = attach_id;
  request_id = f.request_id;
  status = code st;
}

unfoldable pub simple_header : ℕ → Status → ℕ → ℕ → List ℕ → Header
simple_header type status request_id attach_id body = record blank_header {
  type = type;
  flags = flag_seg_first;
  attach_id = attach_id;
  request_id = request_id;
  status = code status;
  body_len = length body % 2 ^ 32;
}

module _ {T : Type 0} (over : Link T) where
  then_flush : T × Status → T × Status
  then_flush (t, ok) = over.flush t
  then_flush (t, other) = (t, other)

  -- `sendRecord` on the record layer's own state.
  unfoldable pub transmit : T → List ℕ → T × Status
  unfolding then_flush
  transmit t bytes =
      if over.is_up t then then_flush (over.send_record t bytes) else (t, transport_lost)

module _ {T P D : Type 0} (over : Link T) where
  unfoldable pub send_record : List ℕ → ExporterSession T P D → ExporterSession T P D × Status
  unfolding transmit
  send_record bytes s =
      let sent = transmit over s.link bytes in (record s { link = sent.0 }, sent.1)

  unfoldable pub send_simple :
      ℕ → Status → ℕ → List ℕ → ExporterSession T P D → ExporterSession T P D × Status
  unfolding send_record simple_header
  send_simple type status request_id body s =
      send_record (encode_header (simple_header type status request_id s.attach_id body) [] ++ body)
        s

  -- What the send answers is not looked at.
  unfoldable pub refuse :
      ℕ → Status → List ℕ → ExporterSession T P D → ExporterSession T P D × Status
  unfolding send_record
  refuse type status why s =
      let sent = send_record (build_error type status why []) (record s { why = why }) in
      (sent.0, if is_fatal status then status else ok)

  emit_segments :
      InFlight
      → Status
      → CompleteBody
      → List ℕ
      → ExporterSession T P D
      → ExporterSession T P D × Status
  unfolding transmit
  emit_segments f st cb payload s =
      let max_seg = over.max_plaintext_bytes s.link - header_size - body_complete in
      let sent =
        emit_transfer (transmit over) (complete_header f s.attach_id st) (encode_complete cb [])
          (if cb.dir == 1 then payload else []) max_seg s.link in
      (record s { transfers = (s.transfers + 1) % 2 ^ 64; link = sent.0 }, sent.1)

  -- A completion longer than what was asked for is refused, and so is one on a record layer whose
  -- plaintexts have no room for the header and the body.
  unfoldable pub emit_complete :
      InFlight
      → Status
      → ℕ
      → Bool
      → Bool
      → List ℕ
      → ExporterSession T P D
      → ExporterSession T P D × Status
  unfolding refuse emit_segments complete_of
  emit_complete f st actual_len cancelled zlp_sent payload s =
      let s = record s { answered = (f.channel, f.request_id) ∷ s.answered } in
      let cb = complete_of f st actual_len cancelled zlp_sent payload in
      if ltb cb.requested_len cb.actual_len
      then refuse 0x40 internal (codes "device reported more than was requested") s
      else if leb (over.max_plaintext_bytes s.link) (header_size + body_complete)
      then (s, internal)
      else emit_segments f st cb payload s
