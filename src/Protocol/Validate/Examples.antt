-- ===== src/Protocol/Validate/Examples.antt =====
-- The rules at concrete inputs.
use airusb_hub.Protocol.Validate.Utf8.{is_valid_utf8, IsScalar, text_of}
use airusb_hub.Protocol.Validate.Utf8.Meaning.{is_valid_utf8_iff}
use airusb_hub.Base.{ℕ, ◌≡◌, ◌↔◌, ◌++◌, refl, List, [], ◌∷◌, arith, true, false, All}
use airusb_hub.Protocol.Codec.Headers.{Header}
use airusb_hub.Protocol.Codec.Transfers.{SubmitBody, CompleteBody, encode_iso_desc, decode_iso_desc}
use airusb_hub.Protocol.Codec.{u16_of, u32_of}
use airusb_hub.Protocol.Validate.{
  Limits, rule_ok, r5_actual_len, validate_submit, validate_complete, r4_submit_identity,
  r4_complete_identity, r5_actual_len_check, r6_iso_table_check,
}
use airusb_hub.Protocol.Validate.Transfers.{
  IsSubmit, IsComplete, validate_submit_iff, validate_complete_iff,
}

abbrev limits : Limits
limits = record {
  max_record_bytes = 16640;
  max_transfer_bytes = 1_048_576;
  max_segment_bytes = 16384;
  max_iso_packets = 8;
  max_channels = 256;
}

abbrev header : Header
header = record {
  type = 0x40;
  flags = 2;
  channel = 0x181;
  body_len = 45;
  attach_id = 1;
  seg_offset = 0;
  request_id = 9;
  status = 0;
  device_epoch = 0;
  total_len = 5;
}

abbrev bulk_out : SubmitBody
bulk_out = record {
  ep_addr = 0x01;
  xfer_type = 2;
  dir = 0;
  xflags = 0;
  buffer_len = 5;
  timeout_ms = 0;
  iso_pkt_count = 0;
  interval = 0;
  stream_id = 0;
  setup = 0 ∷ 0 ∷ 0 ∷ 0 ∷ 0 ∷ 0 ∷ 0 ∷ 0 ∷ [];
  submit_ts_ns = 0;
}

-- A bulk IN that claims more bytes than it carries.
abbrev lying : CompleteBody
lying = record {
  ep_addr = 0x81;
  xfer_type = 2;
  dir = 1;
  cflags = 0;
  requested_len = 64;
  actual_len = 64;
  payload_len = 5;
  iso_pkt_count = 0;
  error_count = 0;
  start_frame = 0;
  reserved = 0;
  submit_ts_ns = 0;
}

validate_submit_iff_example :
    ((validate_submit header bulk_out [] limits).rule ≡ rule_ok)
    ↔ IsSubmit header bulk_out [] limits
validate_submit_iff_example = validate_submit_iff header bulk_out [] limits (omega arith)

validate_complete_iff_example :
    ((validate_complete header lying [] limits).rule ≡ rule_ok) ↔ IsComplete header lying [] limits
validate_complete_iff_example = validate_complete_iff header lying [] limits (omega arith)

submit_passes : (validate_submit header bulk_out [] limits).rule ≡ rule_ok
unfolding validate_submit r4_submit_identity
submit_passes = refl

lie_found : (validate_complete header lying [] limits).rule ≡ r5_actual_len
unfolding validate_complete r4_complete_identity r5_actual_len_check
lie_found = refl

-- Two packets of 8 bytes, one after the other, in a buffer of 16.
abbrev table : List ℕ
table =
    encode_iso_desc (record { offset = 0; len = 8; actual_length = 0; status = 0; reserved = 0 }) []
    ++ encode_iso_desc (record { offset = 8; len = 8; actual_length = 0; status = 0; reserved = 0 })
        []

table_passes : (r6_iso_table_check table 2 16 limits).rule ≡ rule_ok
unfolding r6_iso_table_check encode_iso_desc decode_iso_desc u16_of u32_of
table_passes = refl

-- A letter of two bytes, and the same with an overlong form of it, which is refused.
is_valid_utf8_iff_example :
    (is_valid_utf8 (0xC3 ∷ 0xA9 ∷ []) ≡ true)
    ↔ ((cps : List ℕ) × All IsScalar cps × (text_of cps ≡ 0xC3 ∷ 0xA9 ∷ []))
is_valid_utf8_iff_example = is_valid_utf8_iff (0xC3 ∷ 0xA9 ∷ [])

overlong_refused : is_valid_utf8 (0xE0 ∷ 0x83 ∷ 0xA9 ∷ []) ≡ false
unfolding is_valid_utf8
overlong_refused = refl
