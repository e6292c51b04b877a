-- ===== src/Session/Exporter/Handlers.antt =====
-- airusb/session/ExporterSession: what each message does, but for ATTACH.
pub mod Cancels
pub mod Verbs
pub mod Control
use airusb_hub.Base.{
  ℕ, Bool, true, false, not, ◌||◌, Option, none, some, List, [], ◌==◌, if◌then◌else◌, drop, codes,
  String,
}
use airusb_hub.Core.Status.{Status, ok, malformed_frame, detaching, device_gone}
use airusb_hub.Protocol.Codec.Headers.{Header}
use airusb_hub.Protocol.Codec.Transfers.{SubmitBody, decode_submit, body_submit}
use airusb_hub.Protocol.Reassembly.{
  Outcome, need_more, complete, rejected, accept, take_completed, clear, seg_more,
}
use airusb_hub.Protocol.Validate.{Limits, Verdict, rule_ok, validate_submit}
use airusb_hub.Session.Exporter.{Link, ExporterSession, is_leased, has_port}
use airusb_hub.Session.Exporter.Sending.{refuse}
use airusb_hub.Session.Exporter.Queue.{enqueue_transfer}

-- `Limits` with its defaults, but for the size of the records.
abbrev pub limits_for : ℕ → Limits
limits_for max_record_bytes = record {
  max_record_bytes = max_record_bytes;
  max_transfer_bytes = 1_048_576;
  max_segment_bytes = 16_384;
  max_iso_packets = 0;
  max_channels = 256;
}

-- `Verdict::ok`.
unfoldable pub is_passed : Verdict → Bool
is_passed v = elim v.rule [ rule_ok ↦ true | other ↦ false ]

module _ {T P D : Type 0} where
  unfoldable pub reset_reassembly : ExporterSession T P D → ExporterSession T P D
  reset_reassembly s = record s {
    rx_active = false;
    rx_channel = 0;
    rx_request_id = 0;
    rx = clear s.rx;
  }

  unfoldable pub start_reassembly :
      Header → SubmitBody → ExporterSession T P D → ExporterSession T P D
  start_reassembly h sb s = record s {
    rx_active = true;
    rx_channel = h.channel;
    rx_request_id = h.request_id;
    rx_sb = sb;
    rx = clear s.rx;
  }

module _ {T P D : Type 0} (over : Link T) where
  -- A refusal of the message with this header.
  unfoldable pub refuse_message :
      Header → Status → String → ExporterSession T P D → ExporterSession T P D × Status
  refuse_message h status why s = refuse over h.type status (codes why) s

  unfoldable pub first_segment :
      Header → ExporterSession T P D → Outcome → ExporterSession T P D × Status
  first_segment h s (rejected e) =
      refuse_message h e "segmentation rejected the first segment" (reset_reassembly s)
  first_segment h s other = (s, ok)

  unfoldable pub begin_segmented :
      Header → SubmitBody → List ℕ → ExporterSession T P D → ExporterSession T P D × Status
  unfolding first_segment
  begin_segmented h sb payload s =
      let s' = start_reassembly h sb s in
      let o = accept h payload s'.rx in
      if not (sb.dir == 0)
      then refuse_message h malformed_frame "a segmented IN SUBMIT is malformed" s
      else if s.rx_active
      then refuse_message h malformed_frame "overlapping segmented SUBMIT" s
      else first_segment h (record s' { rx = o.0 }) o.1

  -- From the decoded body on; the rest of the message's body is `payload`.
  unfoldable pub submit_decoded :
      ℕ
      → Header
      → List ℕ
      → ExporterSession T P D
      → Option SubmitBody
      → ExporterSession T P D × Status
  submit_decoded now h payload s none = refuse_message h malformed_frame "bad SUBMIT" s
  submit_decoded now h payload s (some sb) =
      let v = validate_submit h sb payload (limits_for (over.max_record_bytes s.link)) in
      if not (is_passed v)
      then refuse_message h v.status "SUBMIT failed validation" s
      else if seg_more h
      then begin_segmented h sb payload s
      else if s.rx_active
      then refuse_message h malformed_frame "a SUBMIT arrived during reassembly" s
      else enqueue_transfer over now h.channel h.request_id sb payload s

  unfoldable pub handle_submit :
      ℕ → Header → List ℕ → ExporterSession T P D → ExporterSession T P D × Status
  handle_submit now h body s =
      if not (is_leased s.state)
      then refuse_message h detaching "That device is no longer attached." s
      else if not (has_port s.port)
      then refuse_message h device_gone "That device is gone." s
      else if not (h.attach_id == s.attach_id)
      then (s, ok)
      else submit_decoded now h (drop body_submit body) s (decode_submit body)

  unfoldable pub continuation :
      ℕ → Header → ExporterSession T P D → Outcome → ExporterSession T P D × Status
  continuation now h s (rejected e) =
      refuse_message h e "segmentation rejected a continuation" (reset_reassembly s)
  continuation now h s need_more = (s, ok)
  continuation now h s complete =
      let full = take_completed h s.rx in
      enqueue_transfer over now s.rx_channel s.rx_request_id s.rx_sb full.1
        (reset_reassembly (record s { rx = full.0 }))

  unfoldable pub handle_data :
      ℕ → Header → List ℕ → ExporterSession T P D → ExporterSession T P D × Status
  handle_data now h body s =
      let o = accept h body s.rx in
      if not (is_leased s.state) || not (has_port s.port)
      then refuse_message h detaching "That device is no longer attached." s
      else if not (h.attach_id == s.attach_id)
      then (s, ok)
      else if not s.rx_active
          || (not (h.channel == s.rx_channel) || not (h.request_id == s.rx_request_id))
      then refuse_message h malformed_frame "a DATA segment arrived with no transfer in progress" s
      else continuation now h (record s { rx = o.0 }) o.1
