-- ===== src/Protocol/Codec/Headers.antt =====
-- The 32-byte message header.
use airusb_hub.Base.{
  ℕ, ◌≡◌, Option, none, some, List, [], ◌++◌, arith, ltb, if◌then◌else◌, length, IsByte, IsU16,
  IsU32, IsU64,
}
use airusb_hub.Protocol.Codec.{
  rd_u8, rd_u16, rd_u32, rd_u64, wr_u8, wr_u16, wr_u32, wr_u64, grow, u16_of-bytes, u32_of-bytes,
  u64_of-bytes,
}

pub record Header : Type 0 where
  pub type : ℕ
  pub flags : ℕ
  pub channel : ℕ
  pub body_len : ℕ
  pub attach_id : ℕ
  pub seg_offset : ℕ
  pub request_id : ℕ
  pub status : ℕ
  pub device_epoch : ℕ
  pub total_len : ℕ

-- The ranges of the fields, which their C++ types give.
pub record IsHeader (h : Header) : Type 0 where
  pub type_range : IsByte h.type
  pub flags_range : IsByte h.flags
  pub channel_range : IsU16 h.channel
  pub body_len_range : IsU32 h.body_len
  pub attach_id_range : IsU32 h.attach_id
  pub seg_offset_range : IsU32 h.seg_offset
  pub request_id_range : IsU64 h.request_id
  pub status_range : IsU16 h.status
  pub device_epoch_range : IsU16 h.device_epoch
  pub total_len_range : IsU32 h.total_len

abbrev pub header_size : ℕ
header_size = 32

unfoldable pub decode_header : List ℕ → Option Header
decode_header p =
    if ltb (length p) header_size
    then none
    else some (record {
      type = rd_u8 p 0;
      flags = rd_u8 p 1;
      channel = rd_u16 p 2;
      body_len = rd_u32 p 4;
      attach_id = rd_u32 p 8;
      seg_offset = rd_u32 p 12;
      request_id = rd_u64 p 16;
      status = rd_u16 p 24;
      device_epoch = rd_u16 p 26;
      total_len = rd_u32 p 28;
    })

-- The stores, in the order of the source.
unfoldable pub header_bytes : Header → List ℕ
header_bytes h =
    let p = wr_u8 (grow header_size) 0 h.type in
    let p = wr_u8 p 1 h.flags in
    let p = wr_u16 p 2 h.channel in
    let p = wr_u32 p 4 h.body_len in
    let p = wr_u32 p 8 h.attach_id in
    let p = wr_u32 p 12 h.seg_offset in
    let p = wr_u64 p 16 h.request_id in
    let p = wr_u16 p 24 h.status in let p = wr_u16 p 26 h.device_epoch in wr_u32 p 28 h.total_len

unfoldable pub encode_header : Header → List ℕ → List ℕ
unfolding header_bytes
encode_header h out = out ++ header_bytes h

-- A header whose fields are in range decodes, once encoded, to itself, whatever follows it in the
-- record.
pub decode_header-encode_header :
    (h : Header) (rest : List ℕ) → IsHeader h → decode_header (encode_header h [] ++ rest) ≡ some h
unfolding decode_header encode_header
decode_header-encode_header h rest v =
    rw
      (
        u16_of-bytes h.channel v.channel_range,
        u32_of-bytes h.body_len v.body_len_range,
        u32_of-bytes h.attach_id v.attach_id_range,
        u32_of-bytes h.seg_offset v.seg_offset_range,
        u64_of-bytes h.request_id v.request_id_range,
        u16_of-bytes h.status v.status_range,
        u16_of-bytes h.device_epoch v.device_epoch_range,
        u32_of-bytes h.total_len v.total_len_range,
      )
      (ground arith)
