-- ===== src/Protocol/Messages.antt =====
-- airusb/protocol/Messages: the bodies of the control plane's messages, but for the device list.
pub mod Listing
pub mod Fixed
mod Examples
use airusb_hub.Base.{
  ℕ, ◌%◌, ◌^◌, Bool, ◌&&◌, ◌||◌, not, Option, none, some, List, [], ◌++◌, ltb, leb, ◌==◌,
  if◌then◌else◌, length, take,
}
use airusb_hub.Core.Status.{Status, code}
use airusb_hub.Protocol.Codec.{
  rd_u8, rd_u16, rd_u32, rd_u64, wr_u8, wr_u16, wr_u32, wr_u64, grow, copy_to,
}
use airusb_hub.Protocol.Codec.Headers.{Header, encode_header}
use airusb_hub.Protocol.Codec.Tlvs.{append_tlv}

pub record AttachBody : Type 0 where
  pub uid : List ℕ
  pub exclusivity : ℕ
  pub attach_slot : ℕ
  pub flags : ℕ
  pub importer_max_transfer_bytes : ℕ

abbrev pub body_attach : ℕ
body_attach = 24

unfoldable pub encode_attach : AttachBody → List ℕ → List ℕ
encode_attach b out =
    let p = copy_to (grow body_attach) 0 b.uid in
    let p = wr_u8 p 16 b.exclusivity in
    let p = wr_u8 p 17 b.attach_slot in
    let p = wr_u16 p 18 b.flags in out ++ wr_u32 p 20 b.importer_max_transfer_bytes

read_attach : List ℕ → AttachBody
read_attach p = record {
  uid = take 16 p;
  exclusivity = rd_u8 p 16;
  attach_slot = rd_u8 p 17;
  flags = rd_u16 p 18;
  importer_max_transfer_bytes = rd_u32 p 20;
}

-- Slots 1 to 15, and no mode but EXCLUSIVE.
unfoldable pub decode_attach : List ℕ → Option AttachBody
unfolding read_attach
decode_attach p =
    if ltb (length p) body_attach
    then none
    else let b = read_attach p in
      if (b.attach_slot == 0) || ltb 15 b.attach_slot
      then none
      else if not (b.exclusivity == 1)
      then none
      else some b

pub record AttachOkBody : Type 0 where
  pub attach_id : ℕ
  pub credit_urbs : ℕ
  pub credit_bytes : ℕ
  pub speed : ℕ
  pub cancel_granularity : ℕ
  pub exporter_flags : ℕ
  pub device_latency_us : ℕ
  pub manifest_len : ℕ
  pub lease_epoch : ℕ
  pub urb_ceiling_ms : ℕ

-- The default member initializers.
abbrev pub attach_ok_init : AttachOkBody
attach_ok_init = record {
  attach_id = 0;
  credit_urbs = 64;
  credit_bytes = 4_194_304;
  speed = 0;
  cancel_granularity = 0;
  exporter_flags = 0;
  device_latency_us = 0;
  manifest_len = 0;
  lease_epoch = 0;
  urb_ceiling_ms = 0;
}

abbrev pub body_attach_ok : ℕ
body_attach_ok = 40

unfoldable pub encode_attach_ok : AttachOkBody → List ℕ → List ℕ
encode_attach_ok b out =
    let p = wr_u32 (grow body_attach_ok) 0 b.attach_id in
    let p = wr_u32 p 4 b.credit_urbs in
    let p = wr_u32 p 8 b.credit_bytes in
    let p = wr_u16 p 12 b.speed in
    let p = wr_u8 p 14 b.cancel_granularity in
    let p = wr_u8 p 15 b.exporter_flags in
    let p = wr_u32 p 16 b.device_latency_us in
    let p = wr_u32 p 20 b.manifest_len in
    let p = wr_u32 p 24 b.lease_epoch in out ++ wr_u32 p 28 b.urb_ceiling_ms

read_attach_ok : List ℕ → AttachOkBody
read_attach_ok p = record {
  attach_id = rd_u32 p 0;
  credit_urbs = rd_u32 p 4;
  credit_bytes = rd_u32 p 8;
  speed = rd_u16 p 12;
  cancel_granularity = rd_u8 p 14;
  exporter_flags = rd_u8 p 15;
  device_latency_us = rd_u32 p 16;
  manifest_len = rd_u32 p 20;
  lease_epoch = rd_u32 p 24;
  urb_ceiling_ms = rd_u32 p 28;
}

-- The highest speed code, that of `other`, and wire::kManifestBytesMax.
abbrev pub speed_other : ℕ
speed_other = 7

abbrev pub manifest_bytes_max : ℕ
manifest_bytes_max = 262_144

unfoldable pub decode_attach_ok : List ℕ → Option AttachOkBody
unfolding read_attach_ok
decode_attach_ok p =
    if ltb (length p) body_attach_ok
    then none
    else let b = read_attach_ok p in
      if ltb speed_other b.speed
      then none
      else if ltb manifest_bytes_max b.manifest_len
      then none
      else if ltb 1 b.cancel_granularity
      then none
      else some b

unfoldable pub is_known_detach_reason : ℕ → Bool
is_known_detach_reason raw = leb 1 raw && leb raw 6

-- `reason` is the value of its enumerator.
pub record DetachBody : Type 0 where
  pub reason : ℕ
  pub dflags : ℕ
  pub drain_timeout_ms : ℕ

unfoldable pub encode_detach : DetachBody → List ℕ → List ℕ
encode_detach b out =
    let p = wr_u8 (grow 8) 0 b.reason in
    let p = wr_u8 p 1 b.dflags in out ++ wr_u16 p 2 b.drain_timeout_ms

unfoldable pub decode_detach : List ℕ → Option DetachBody
unfolding is_known_detach_reason
decode_detach p =
    if ltb (length p) 8
    then none
    else if not (is_known_detach_reason (rd_u8 p 0))
    then none
    else some (record { reason = rd_u8 p 0; dflags = rd_u8 p 1; drain_timeout_ms = rd_u16 p 2 })

pub record DetachOkBody : Type 0 where
  pub urbs_completed : ℕ
  pub urbs_cancelled : ℕ
  pub bytes_dropped : ℕ

unfoldable pub encode_detach_ok : DetachOkBody → List ℕ → List ℕ
encode_detach_ok b out =
    let p = wr_u32 (grow 16) 0 b.urbs_completed in
    let p = wr_u32 p 4 b.urbs_cancelled in out ++ wr_u32 p 8 b.bytes_dropped

unfoldable pub decode_detach_ok : List ℕ → Option DetachOkBody
decode_detach_ok p =
    if ltb (length p) 16
    then none
    else some (record {
      urbs_completed = rd_u32 p 0;
      urbs_cancelled = rd_u32 p 4;
      bytes_dropped = rd_u32 p 8;
    })

pub record PingBody : Type 0 where
  pub ping_ts_ns : ℕ
  pub echo_ts_ns : ℕ
  pub credit_urbs_view : ℕ
  pub credit_bytes_view : ℕ

unfoldable pub encode_ping : PingBody → List ℕ → List ℕ
encode_ping b out =
    let p = wr_u64 (grow 24) 0 b.ping_ts_ns in
    let p = wr_u64 p 8 b.echo_ts_ns in
    let p = wr_u32 p 16 b.credit_urbs_view in out ++ wr_u32 p 20 b.credit_bytes_view

unfoldable pub decode_ping : List ℕ → Option PingBody
decode_ping p =
    if ltb (length p) 24
    then none
    else some (record {
      ping_ts_ns = rd_u64 p 0;
      echo_ts_ns = rd_u64 p 8;
      credit_urbs_view = rd_u32 p 16;
      credit_bytes_view = rd_u32 p 20;
    })

pub record ErrorBody : Type 0 where
  pub offending_type : ℕ
  pub detail : ℕ

unfoldable pub encode_error : ErrorBody → List ℕ → List ℕ
encode_error b out =
    let p = wr_u16 (grow 8) 0 b.offending_type in let p = wr_u16 p 2 0 in out ++ wr_u32 p 4 b.detail

unfoldable pub decode_error : List ℕ → Option ErrorBody
decode_error p =
    if ltb (length p) 8
    then none
    else some (record { offending_type = rd_u16 p 0; detail = rd_u32 p 4 })

-- wire::Tlv::RejectReason.
abbrev pub reject_reason : ℕ
reject_reason = 0x0008

pub error_body : ℕ → List ℕ → List ℕ
error_body offending_type reason =
    let body = encode_error (record { offending_type = offending_type; detail = 0 }) [] in
    if length reason == 0
    then body
    else append_tlv (record { type = reject_reason; value = reason }) body

-- Type 0x06, and the flags SEG_FIRST and EXPEDITE.
pub error_header : Status → List ℕ → Header
error_header status body = record {
  type = 0x06;
  flags = 0x06;
  channel = 0;
  body_len = length body % 2 ^ 32;
  attach_id = 0;
  seg_offset = 0;
  request_id = 0;
  status = code status;
  device_epoch = 0;
  total_len = 0;
}

unfoldable pub build_error : ℕ → Status → List ℕ → List ℕ → List ℕ
unfolding error_body error_header
build_error offending_type status reason out =
    let body = error_body offending_type reason in
    encode_header (error_header status body) out ++ body
