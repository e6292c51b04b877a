-- ===== src/Protocol/Codec/Transfers.antt =====
-- The fixed bodies of SUBMIT and COMPLETE, and the isochronous descriptors.
use airusb_hub.Base.{
  ℕ, ◌-◌, ◌*◌, ◌/◌, ◌≡◌, Option, none, some, List, [], ◌++◌, arith, ltb, if◌then◌else◌, length,
  IsByte, IsU32, IsU64, take, drop,
}
use airusb_hub.Protocol.Codec.{
  rd_u8, rd_u16, rd_u32, rd_u64, wr_u8, wr_u16, wr_u32, wr_u64, grow, copy_to, u32_of-bytes,
  u64_of-bytes, cells_lem,
}

pub record SubmitBody : Type 0 where
  pub ep_addr : ℕ
  pub xfer_type : ℕ
  pub dir : ℕ
  pub xflags : ℕ
  pub buffer_len : ℕ
  pub timeout_ms : ℕ
  pub iso_pkt_count : ℕ
  pub interval : ℕ
  pub stream_id : ℕ
  pub setup : List ℕ
  pub submit_ts_ns : ℕ

pub record IsSubmitBody (b : SubmitBody) : Type 0 where
  pub ep_addr_range : IsByte b.ep_addr
  pub xfer_type_range : IsByte b.xfer_type
  pub dir_range : IsByte b.dir
  pub xflags_range : IsByte b.xflags
  pub buffer_len_range : IsU32 b.buffer_len
  pub timeout_ms_range : IsU32 b.timeout_ms
  pub iso_pkt_count_range : IsU32 b.iso_pkt_count
  pub interval_range : IsU32 b.interval
  pub stream_id_range : IsU32 b.stream_id
  pub setup_size : length b.setup ≡ 8
  pub submit_ts_ns_range : IsU64 b.submit_ts_ns

abbrev pub body_submit : ℕ
body_submit = 40

unfoldable pub decode_submit : List ℕ → Option SubmitBody
decode_submit p =
    if ltb (length p) body_submit
    then none
    else some (record {
      ep_addr = rd_u8 p 0;
      xfer_type = rd_u8 p 1;
      dir = rd_u8 p 2;
      xflags = rd_u8 p 3;
      buffer_len = rd_u32 p 4;
      timeout_ms = rd_u32 p 8;
      iso_pkt_count = rd_u32 p 12;
      interval = rd_u32 p 16;
      stream_id = rd_u32 p 20;
      setup = take 8 (drop 24 p);
      submit_ts_ns = rd_u64 p 32;
    })

unfoldable pub encode_submit : SubmitBody → List ℕ → List ℕ
encode_submit b out =
    let p = wr_u8 (grow body_submit) 0 b.ep_addr in
    let p = wr_u8 p 1 b.xfer_type in
    let p = wr_u8 p 2 b.dir in
    let p = wr_u8 p 3 b.xflags in
    let p = wr_u32 p 4 b.buffer_len in
    let p = wr_u32 p 8 b.timeout_ms in
    let p = wr_u32 p 12 b.iso_pkt_count in
    let p = wr_u32 p 16 b.interval in
    let p = wr_u32 p 20 b.stream_id in
    let p = copy_to p 24 b.setup in out ++ wr_u64 p 32 b.submit_ts_ns

-- A SUBMIT body whose fields are in range decodes, once encoded, to itself, whatever follows it.
decode_submit-encode_submit :
    (b : SubmitBody) (rest : List ℕ)
    → IsSubmitBody b
    → decode_submit (encode_submit b [] ++ rest) ≡ some b
unfolding decode_submit encode_submit
decode_submit-encode_submit b rest v =
    rw
      (
        cells_lem 8 b.setup v.setup_size,
        u32_of-bytes b.buffer_len v.buffer_len_range,
        u32_of-bytes b.timeout_ms v.timeout_ms_range,
        u32_of-bytes b.iso_pkt_count v.iso_pkt_count_range,
        u32_of-bytes b.interval v.interval_range,
        u32_of-bytes b.stream_id v.stream_id_range,
        u64_of-bytes b.submit_ts_ns v.submit_ts_ns_range,
      )
      (ground arith)

pub record CompleteBody : Type 0 where
  pub ep_addr : ℕ
  pub xfer_type : ℕ
  pub dir : ℕ
  pub cflags : ℕ
  pub requested_len : ℕ
  pub actual_len : ℕ
  pub payload_len : ℕ
  pub iso_pkt_count : ℕ
  pub error_count : ℕ
  pub start_frame : ℕ
  pub reserved : ℕ
  pub submit_ts_ns : ℕ

pub record IsCompleteBody (b : CompleteBody) : Type 0 where
  pub ep_addr_range : IsByte b.ep_addr
  pub xfer_type_range : IsByte b.xfer_type
  pub dir_range : IsByte b.dir
  pub cflags_range : IsByte b.cflags
  pub requested_len_range : IsU32 b.requested_len
  pub actual_len_range : IsU32 b.actual_len
  pub payload_len_range : IsU32 b.payload_len
  pub iso_pkt_count_range : IsU32 b.iso_pkt_count
  pub error_count_range : IsU32 b.error_count
  pub start_frame_range : IsU32 b.start_frame
  pub reserved_range : IsU32 b.reserved
  pub submit_ts_ns_range : IsU64 b.submit_ts_ns

abbrev pub body_complete : ℕ
body_complete = 40

unfoldable pub decode_complete : List ℕ → Option CompleteBody
decode_complete p =
    if ltb (length p) body_complete
    then none
    else some (record {
      ep_addr = rd_u8 p 0;
      xfer_type = rd_u8 p 1;
      dir = rd_u8 p 2;
      cflags = rd_u8 p 3;
      requested_len = rd_u32 p 4;
      actual_len = rd_u32 p 8;
      payload_len = rd_u32 p 12;
      iso_pkt_count = rd_u32 p 16;
      error_count = rd_u32 p 20;
      start_frame = rd_u32 p 24;
      reserved = rd_u32 p 28;
      submit_ts_ns = rd_u64 p 32;
    })

unfoldable pub encode_complete : CompleteBody → List ℕ → List ℕ
encode_complete b out =
    let p = wr_u8 (grow body_complete) 0 b.ep_addr in
    let p = wr_u8 p 1 b.xfer_type in
    let p = wr_u8 p 2 b.dir in
    let p = wr_u8 p 3 b.cflags in
    let p = wr_u32 p 4 b.requested_len in
    let p = wr_u32 p 8 b.actual_len in
    let p = wr_u32 p 12 b.payload_len in
    let p = wr_u32 p 16 b.iso_pkt_count in
    let p = wr_u32 p 20 b.error_count in
    let p = wr_u32 p 24 b.start_frame in
    let p = wr_u32 p 28 b.reserved in out ++ wr_u64 p 32 b.submit_ts_ns

-- A COMPLETE body whose fields are in range decodes, once encoded, to itself, whatever follows it.
decode_complete-encode_complete :
    (b : CompleteBody) (rest : List ℕ)
    → IsCompleteBody b
    → decode_complete (encode_complete b [] ++ rest) ≡ some b
unfolding decode_complete encode_complete
decode_complete-encode_complete b rest v =
    rw
      (
        u32_of-bytes b.requested_len v.requested_len_range,
        u32_of-bytes b.actual_len v.actual_len_range,
        u32_of-bytes b.payload_len v.payload_len_range,
        u32_of-bytes b.iso_pkt_count v.iso_pkt_count_range,
        u32_of-bytes b.error_count v.error_count_range,
        u32_of-bytes b.start_frame v.start_frame_range,
        u32_of-bytes b.reserved v.reserved_range,
        u64_of-bytes b.submit_ts_ns v.submit_ts_ns_range,
      )
      (ground arith)

pub record IsoDesc : Type 0 where
  pub offset : ℕ
  pub len : ℕ
  pub actual_length : ℕ
  pub status : ℕ
  pub reserved : ℕ

abbrev pub iso_desc_size : ℕ
iso_desc_size = 16

iso_desc_at : List ℕ → IsoDesc
iso_desc_at p = record {
  offset = rd_u32 p 0;
  len = rd_u32 p 4;
  actual_length = rd_u32 p 8;
  status = rd_u16 p 12;
  reserved = rd_u16 p 14;
}

-- The pointer `in + index * 16` is the rest of the buffer from there.
unfoldable pub decode_iso_desc : List ℕ → ℕ → Option IsoDesc
unfolding iso_desc_at
decode_iso_desc p index =
    if ltb (length p / iso_desc_size) index
    then none
    else if ltb (length p - index * iso_desc_size) iso_desc_size
    then none
    else some (iso_desc_at (drop (index * iso_desc_size) p))

unfoldable pub encode_iso_desc : IsoDesc → List ℕ → List ℕ
encode_iso_desc d out =
    let p = wr_u32 (grow iso_desc_size) 0 d.offset in
    let p = wr_u32 p 4 d.len in
    let p = wr_u32 p 8 d.actual_length in
    let p = wr_u16 p 12 d.status in out ++ wr_u16 p 14 d.reserved
