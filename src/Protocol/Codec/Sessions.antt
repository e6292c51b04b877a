-- ===== src/Protocol/Codec/Sessions.antt =====
-- The bodies of HELLO, CANCEL and CANCEL_ACK, and the connection preamble.
use airusb_hub.Base.{
  ℕ, ◌≡◌, ◌≢◌, refl, Bool, ◌&&◌, Option, none, some, List, [], ◌∷◌, ◌++◌, arith, ltb, ◌==◌,
  if◌then◌else◌, length, IsByte, IsU16, IsU32, IsU64, take, drop, get_or,
}
use airusb_hub.Protocol.Codec.{
  rd_u8, rd_u16, rd_u32, rd_u64, wr_u8, wr_u16, wr_u32, wr_u64, grow, copy_to, u16_of-bytes,
  u32_of-bytes, u64_of-bytes, cells_lem,
}

pub record HelloBody : Type 0 where
  pub proto_min : ℕ
  pub proto_max : ℕ
  pub caps : ℕ
  pub max_transfer : ℕ
  pub max_record : ℕ
  pub max_segment : ℕ
  pub max_iso_packets : ℕ
  pub max_channels : ℕ
  pub max_links : ℕ
  pub keepalive_ms : ℕ
  pub platform_id : ℕ
  pub role_bits : ℕ
  pub reserved : ℕ
  pub session_id : List ℕ

pub record IsHelloBody (b : HelloBody) : Type 0 where
  pub proto_min_range : IsU16 b.proto_min
  pub proto_max_range : IsU16 b.proto_max
  pub caps_range : IsU64 b.caps
  pub max_transfer_range : IsU32 b.max_transfer
  pub max_record_range : IsU32 b.max_record
  pub max_segment_range : IsU32 b.max_segment
  pub max_iso_packets_range : IsU32 b.max_iso_packets
  pub max_channels_range : IsU16 b.max_channels
  pub max_links_range : IsU16 b.max_links
  pub keepalive_ms_range : IsU32 b.keepalive_ms
  pub platform_id_range : IsByte b.platform_id
  pub role_bits_range : IsByte b.role_bits
  pub reserved_range : IsU16 b.reserved
  pub session_id_size : length b.session_id ≡ 16

abbrev pub body_hello : ℕ
body_hello = 56

unfoldable pub decode_hello : List ℕ → Option HelloBody
decode_hello p =
    if ltb (length p) body_hello
    then none
    else some (record {
      proto_min = rd_u16 p 0;
      proto_max = rd_u16 p 2;
      caps = rd_u64 p 4;
      max_transfer = rd_u32 p 12;
      max_record = rd_u32 p 16;
      max_segment = rd_u32 p 20;
      max_iso_packets = rd_u32 p 24;
      max_channels = rd_u16 p 28;
      max_links = rd_u16 p 30;
      keepalive_ms = rd_u32 p 32;
      platform_id = rd_u8 p 36;
      role_bits = rd_u8 p 37;
      reserved = rd_u16 p 38;
      session_id = take 16 (drop 40 p);
    })

unfoldable pub encode_hello : HelloBody → List ℕ → List ℕ
encode_hello b out =
    let p = wr_u16 (grow body_hello) 0 b.proto_min in
    let p = wr_u16 p 2 b.proto_max in
    let p = wr_u64 p 4 b.caps in
    let p = wr_u32 p 12 b.max_transfer in
    let p = wr_u32 p 16 b.max_record in
    let p = wr_u32 p 20 b.max_segment in
    let p = wr_u32 p 24 b.max_iso_packets in
    let p = wr_u16 p 28 b.max_channels in
    let p = wr_u16 p 30 b.max_links in
    let p = wr_u32 p 32 b.keepalive_ms in
    let p = wr_u8 p 36 b.platform_id in
    let p = wr_u8 p 37 b.role_bits in
    let p = wr_u16 p 38 b.reserved in out ++ copy_to p 40 b.session_id

-- A HELLO body whose fields are in range decodes, once encoded, to itself, whatever follows it.
decode_hello-encode_hello :
    (b : HelloBody) (rest : List ℕ)
    → IsHelloBody b
    → decode_hello (encode_hello b [] ++ rest) ≡ some b
unfolding decode_hello encode_hello
decode_hello-encode_hello b rest v =
    rw
      (
        cells_lem 16 b.session_id v.session_id_size,
        u16_of-bytes b.proto_min v.proto_min_range,
        u16_of-bytes b.proto_max v.proto_max_range,
        u64_of-bytes b.caps v.caps_range,
        u32_of-bytes b.max_transfer v.max_transfer_range,
        u32_of-bytes b.max_record v.max_record_range,
        u32_of-bytes b.max_segment v.max_segment_range,
        u32_of-bytes b.max_iso_packets v.max_iso_packets_range,
        u16_of-bytes b.max_channels v.max_channels_range,
        u16_of-bytes b.max_links v.max_links_range,
        u32_of-bytes b.keepalive_ms v.keepalive_ms_range,
        u16_of-bytes b.reserved v.reserved_range,
      )
      (ground arith)

pub record CancelBody : Type 0 where
  pub target_request_id : ℕ
  pub ep_addr : ℕ
  pub scope : ℕ
  pub reserved : ℕ
  pub reserved2 : ℕ

pub record CancelAckBody : Type 0 where
  pub cancelled_count : ℕ
  pub granularity : ℕ
  pub reserved : List ℕ

pub record IsCancelBody (b : CancelBody) : Type 0 where
  pub target_request_id_range : IsU64 b.target_request_id
  pub ep_addr_range : IsByte b.ep_addr
  pub scope_range : IsByte b.scope
  pub reserved_range : IsU16 b.reserved
  pub reserved2_range : IsU32 b.reserved2

pub record IsCancelAckBody (b : CancelAckBody) : Type 0 where
  pub cancelled_count_range : IsU32 b.cancelled_count
  pub granularity_range : IsByte b.granularity
  pub reserved_size : length b.reserved ≡ 3

unfoldable pub decode_cancel : List ℕ → Option CancelBody
decode_cancel p =
    if ltb (length p) 16
    then none
    else some (record {
      target_request_id = rd_u64 p 0;
      ep_addr = rd_u8 p 8;
      scope = rd_u8 p 9;
      reserved = rd_u16 p 10;
      reserved2 = rd_u32 p 12;
    })

unfoldable pub encode_cancel : CancelBody → List ℕ → List ℕ
encode_cancel b out =
    let p = wr_u64 (grow 16) 0 b.target_request_id in
    let p = wr_u8 p 8 b.ep_addr in
    let p = wr_u8 p 9 b.scope in let p = wr_u16 p 10 b.reserved in out ++ wr_u32 p 12 b.reserved2

unfoldable pub decode_cancel_ack : List ℕ → Option CancelAckBody
decode_cancel_ack p =
    if ltb (length p) 8
    then none
    else some (record {
      cancelled_count = rd_u32 p 0;
      granularity = rd_u8 p 4;
      reserved = take 3 (drop 5 p);
    })

unfoldable pub encode_cancel_ack : CancelAckBody → List ℕ → List ℕ
encode_cancel_ack b out =
    let p = wr_u32 (grow 8) 0 b.cancelled_count in
    let p = wr_u8 p 4 b.granularity in out ++ copy_to p 5 b.reserved

-- CANCEL and CANCEL_ACK bodies whose fields are in range decode, once encoded, to themselves,
-- whatever follows them.
decode_cancel-encode_cancel :
    (b : CancelBody) (a : CancelAckBody) (rest : List ℕ)
    → IsCancelBody b
    → IsCancelAckBody a
    → (decode_cancel (encode_cancel b [] ++ rest) ≡ some b)
      × (decode_cancel_ack (encode_cancel_ack a [] ++ rest) ≡ some a)
unfolding decode_cancel encode_cancel decode_cancel_ack encode_cancel_ack
decode_cancel-encode_cancel b a rest v w = (
  rw
      (
        u64_of-bytes b.target_request_id v.target_request_id_range,
        u16_of-bytes b.reserved v.reserved_range,
        u32_of-bytes b.reserved2 v.reserved2_range,
      )
      (ground arith),
  rw
      (
        cells_lem 3 a.reserved w.reserved_size,
        u32_of-bytes a.cancelled_count w.cancelled_count_range,
      )
      (ground arith),
)

pub record Preamble : Type 0 where
  pub wire_major : ℕ
  pub wire_minor : ℕ
  pub flags : ℕ

-- 'A', 'U', 'S', 'B'.
abbrev pub magic : List ℕ
magic = 0x41 ∷ 0x55 ∷ 0x53 ∷ 0x42 ∷ []

-- `memcmp` of the first four bytes with the magic.
has_magic : List ℕ → Bool
has_magic p =
    get_or p 0 0 == 0x41 && get_or p 1 0 == 0x55 && get_or p 2 0 == 0x53 && get_or p 3 0 == 0x42

unfoldable pub encode_preamble : Preamble → List ℕ → List ℕ
encode_preamble a out =
    let p = copy_to (grow 8) 0 magic in
    let p = wr_u8 p 4 a.wire_major in let p = wr_u8 p 5 a.wire_minor in out ++ wr_u16 p 6 a.flags

unfoldable pub decode_preamble : List ℕ → Option Preamble
unfolding has_magic
decode_preamble p =
    if ltb (length p) 8
    then none
    else if has_magic p
    then some (record { wire_major = rd_u8 p 4; wire_minor = rd_u8 p 5; flags = rd_u16 p 6 })
    else none

decode_preamble_other : (p : List ℕ) → take 4 p ≢ magic → decode_preamble p ≡ none
unfolding decode_preamble
decode_preamble_other [] h = refl
decode_preamble_other (a ∷ []) h = refl
decode_preamble_other (a ∷ b ∷ []) h = refl
decode_preamble_other (a ∷ b ∷ c ∷ []) h = refl
decode_preamble_other (a ∷ b ∷ c ∷ d ∷ p) h = ground arith

-- A preamble with 16-bit flags decodes, once encoded, to itself, whatever follows it; bytes that
-- begin otherwise than with the magic decode to none.
decode_preamble-encode_preamble :
    (a : Preamble) (rest p : List ℕ)
    → IsU16 a.flags
    → take 4 p ≢ magic
    → (decode_preamble (encode_preamble a [] ++ rest) ≡ some a) × (decode_preamble p ≡ none)
unfolding decode_preamble encode_preamble
decode_preamble-encode_preamble a rest p h other =
    (rw (u16_of-bytes a.flags h) (ground arith), decode_preamble_other p other)
