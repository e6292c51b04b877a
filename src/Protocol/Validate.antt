-- ===== src/Protocol/Validate.antt =====
-- airusb/protocol/Validate: the rules on what a peer sends, and their composition.
--
-- A verdict keeps its rule, its status, and the two flags. Rule 7 is in Utf8; rules 10 and 11 have no
-- function in the source.
pub mod Iso
pub mod Transfers
pub mod Headers
pub mod Utf8
mod Examples
use airusb_hub.Base.{
  ℕ, zero, suc, ◌+◌, ◌*◌, ◌/◌, ◌%◌, ◌^◌, Bool, true, false, not, ◌&&◌, ◌||◌, Option, none, some,
  List, [], ◌∷◌, ltb, leb, ◌==◌, if◌then◌else◌, length, bit_and, lookup,
}
use airusb_hub.Core.Status.{Status, ok, limit_exceeded, malformed_frame, unsupported_message}
use airusb_hub.Protocol.Codec.Headers.{Header}
use airusb_hub.Protocol.Codec.Transfers.{SubmitBody, CompleteBody, decode_iso_desc, iso_desc_size}

pub data Rule : Type 0 where
  rule_ok r1_record_size r2_total_len r3_body_len r4_type_identity r5_actual_len : Rule
  r6_iso_table r7_utf8_field r8_request_id r9_count_ceiling r10_descriptor_opaque : Rule
  r11_credit r12_device_epoch reserved_flag_set unknown_type : Rule

pub record Verdict : Type 0 where
  pub rule : Rule
  pub status : Status
  pub fatal : Bool
  pub silent_drop : Bool

abbrev pub pass : Verdict
pass = record { rule = rule_ok; status = ok; fatal = false; silent_drop = false }

abbrev pub fail : Rule → Status → Verdict
fail r s = record { rule = r; status = s; fatal = true; silent_drop = false }

-- `if (Verdict v = ...; !v.ok()) return v;` before the rest.
abbrev pub and_then : Verdict → Verdict → Verdict
and_then v next = elim v.rule [ rule_ok ↦ next | other ↦ v ]

pub record Limits : Type 0 where
  pub max_record_bytes : ℕ
  pub max_transfer_bytes : ℕ
  pub max_segment_bytes : ℕ
  pub max_iso_packets : ℕ
  pub max_channels : ℕ

abbrev pub handshake_record_max : ℕ
handshake_record_max = 8192

unfoldable pub r1_record_size_check : ℕ → Limits → Bool → Verdict
r1_record_size_check record_len lim handshake_done =
    let ceiling = if handshake_done then lim.max_record_bytes else handshake_record_max in
    if ltb ceiling record_len then fail r1_record_size limit_exceeded else pass

pub r2_total_len_check : Header → Limits → Verdict
r2_total_len_check h lim =
    if ltb lim.max_transfer_bytes h.total_len
    then fail r2_total_len limit_exceeded
    else if ltb h.total_len h.seg_offset
    then fail r2_total_len malformed_frame
    else pass

abbrev pub is_data_plane : ℕ → Bool
is_data_plane t = leb 0x40 t && leb t 0x4F

-- `fixedBodySize`: the types that are known, with the size of their fixed bodies.
abbrev body_sizes : List (ℕ × ℕ)
body_sizes =
    (0x01, 56)
    ∷ (0x02, 56)
    ∷ (0x03, 24)
    ∷ (0x04, 24)
    ∷ (0x06, 8)
    ∷ (0x40, 40)
    ∷ (0x41, 40)
    ∷ (0x42, 16)
    ∷ (0x43, 8)
    ∷ (0x44, 0)
    ∷ (0x05, 0)
    ∷ (0x10, 0)
    ∷ (0x11, 0)
    ∷ (0x12, 0)
    ∷ (0x13, 0)
    ∷ (0x14, 0)
    ∷ (0x15, 0)
    ∷ (0x20, 0)
    ∷ (0x21, 0)
    ∷ (0x22, 0)
    ∷ (0x23, 0)
    ∷ (0x24, 0)
    ∷ (0x25, 0)
    ∷ (0x26, 0)
    ∷ (0x30, 0)
    ∷ (0x31, 0)
    ∷ (0x32, 0)
    ∷ (0x33, 0)
    ∷ (0x34, 0)
    ∷ (0x35, 0)
    ∷ (0x36, 0)
    ∷ []

pub fixed_body_size : ℕ → Option ℕ
fixed_body_size type = lookup type body_sizes

pub r3_body_len_check : Header → ℕ → Verdict
r3_body_len_check h available_body = elim (fixed_body_size h.type) [
  | none ↦ if is_data_plane h.type then fail unknown_type unsupported_message else pass
  | some fixed ↦
      if ltb h.body_len fixed
      then fail r3_body_len malformed_frame
      else if ltb available_body h.body_len
      then fail r3_body_len malformed_frame
      else pass
]

pub r8_request_id_check : ℕ → ℕ → Bool → Verdict
r8_request_id_check request_id last_seen_on_channel is_currently_outstanding =
    if is_currently_outstanding
    then fail r8_request_id malformed_frame
    else if leb request_id last_seen_on_channel
    then fail r8_request_id malformed_frame
    else pass

pub r9_count_ceiling_check : ℕ → ℕ → Verdict
r9_count_ceiling_check count ceiling =
    if ltb ceiling count then fail r9_count_ceiling limit_exceeded else pass

-- A frame of an older epoch is dropped without an error.
pub r12_device_epoch_check : ℕ → ℕ → Verdict
r12_device_epoch_check received expected =
    if received == expected
    then pass
    else record { rule = r12_device_epoch; status = ok; fatal = false; silent_drop = true }

pub reserved_flags : Header → Verdict
reserved_flags h =
    if bit_and h.flags 0xF0 == 0
    then pass
    else if is_data_plane h.type
    then fail reserved_flag_set malformed_frame
    else pass

-- COMPLETE, HELLO_OK, ATTACH_OK, DETACH_OK, CANCEL_ACK, CTRL_ACK, ERROR, PAIR_RESULT,
-- DEVICE_GONE and PONG.
pub is_response : ℕ → Bool
is_response t =
    t == 0x41
    || t == 0x02
    || t == 0x21
    || t == 0x24
    || t == 0x43
    || t == 0x36
    || t == 0x06
    || t == 0x12
    || t == 0x25
    || t == 0x04

unfoldable pub validate_header : Header → ℕ → Limits → Verdict
unfolding reserved_flags r2_total_len_check r3_body_len_check fixed_body_size is_response
validate_header h available_body lim = and_then (reserved_flags h) (
    and_then (r2_total_len_check h lim) (
      and_then (r3_body_len_check h available_body) (
        if not (h.status == 0) && not (is_response h.type)
        then fail r4_type_identity malformed_frame
        else if h.status == 0x000F
        then fail r4_type_identity malformed_frame
        else pass)))

pub r4_submit_identity : Header → SubmitBody → Verdict
r4_submit_identity h b =
    if not (b.ep_addr % 16 == 0) && not (b.dir == b.ep_addr / 2 ^ 7)
    then fail r4_type_identity malformed_frame
    else if ltb 1 b.dir
    then fail r4_type_identity malformed_frame
    else if ltb 3 b.xfer_type
    then fail r4_type_identity malformed_frame
    else if not (b.xfer_type == 1) && not (b.iso_pkt_count == 0)
    then fail r4_type_identity malformed_frame
    else let expected = b.iso_pkt_count * iso_desc_size in
      let expected = if b.dir == 0 then expected + b.buffer_len else expected in
      if not (expected == h.total_len) then fail r4_type_identity malformed_frame else pass

pub r4_complete_identity : Header → CompleteBody → Verdict
r4_complete_identity h b =
    if ltb 1 b.dir
    then fail r4_type_identity malformed_frame
    else if ltb 3 b.xfer_type
    then fail r4_type_identity malformed_frame
    else if not (b.reserved == 0)
    then fail r4_type_identity malformed_frame
    else if not (b.xfer_type == 1) && not (b.iso_pkt_count == 0)
    then fail r4_type_identity malformed_frame
    else let expected = b.iso_pkt_count * iso_desc_size + b.payload_len in
      if not (expected == h.total_len) then fail r4_type_identity malformed_frame else pass

pub r5_actual_len_check : CompleteBody → Verdict
r5_actual_len_check b =
    if ltb b.requested_len b.actual_len
    then fail r5_actual_len malformed_frame
    else if b.xfer_type == 1
    then pass
    else if b.dir == 1
    then if not (b.payload_len == b.actual_len) then fail r5_actual_len malformed_frame else pass
    else if not (b.payload_len == 0)
    then fail r5_actual_len malformed_frame
    else pass

abbrev pub iso_packets_ceiling : ℕ
iso_packets_ceiling = 1024

-- The loop over the table, on the packets left. The sums are 64-bit.
iso_loop : ℕ → ℕ → ℕ → ℕ → List ℕ → ℕ → Verdict
iso_loop zero i prev_offset sum table buffer_len =
    if ltb buffer_len sum then fail r6_iso_table malformed_frame else pass
iso_loop (suc left) i prev_offset sum table buffer_len = elim (decode_iso_desc table i) [
  | none ↦ fail r6_iso_table malformed_frame
  | some d ↦
      let rest = iso_loop left (i + 1) d.offset ((sum + d.len) % 2 ^ 64) table buffer_len in
      if ltb buffer_len (d.offset + d.len)
      then fail r6_iso_table malformed_frame
      else if ltb 0 i && ltb d.offset prev_offset
      then fail r6_iso_table malformed_frame
      else rest
]

pub r6_iso_table_check : List ℕ → ℕ → ℕ → Limits → Verdict
unfolding iso_loop
r6_iso_table_check table iso_pkt_count buffer_len lim =
    if iso_pkt_count == 0
    then pass
    else let ceiling =
        if ltb lim.max_iso_packets iso_packets_ceiling
        then lim.max_iso_packets
        else iso_packets_ceiling in
      if ltb ceiling iso_pkt_count
      then fail r6_iso_table limit_exceeded
      else if ltb (length table) (iso_pkt_count * iso_desc_size)
      then fail r6_iso_table malformed_frame
      else iso_loop iso_pkt_count 0 0 0 table buffer_len

unfoldable pub validate_submit : Header → SubmitBody → List ℕ → Limits → Verdict
unfolding r4_submit_identity
validate_submit h b data_section lim = and_then (r4_submit_identity h b) (
    if ltb lim.max_transfer_bytes b.buffer_len
    then fail r2_total_len limit_exceeded
    else and_then
        (if b.xfer_type == 1
          then r6_iso_table_check data_section b.iso_pkt_count b.buffer_len lim
          else pass)
        (if not (b.stream_id == 0) then fail r4_type_identity unsupported_message else pass))

pub validate_complete : Header → CompleteBody → List ℕ → Limits → Verdict
validate_complete h b data_section lim = and_then (r4_complete_identity h b) (
    and_then (r5_actual_len_check b) (
      if b.xfer_type == 1
      then r6_iso_table_check data_section b.iso_pkt_count b.requested_len lim
      else pass))
