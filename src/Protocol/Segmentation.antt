-- ===== src/Protocol/Segmentation.antt =====
-- airusb/protocol/Segmentation, the sending half: `planSegments` and `emitTransfer`.
pub mod Plan
pub mod Emit
use airusb_hub.Base.{
  ℕ, zero, suc, ◌+◌, ◌-◌, ◌%◌, ◌^◌, Bool, true, false, List, [], ◌∷◌, ◌++◌, arith, ltb, ◌==◌,
  if◌then◌else◌, length, take, drop, bit_or,
}
use airusb_hub.Core.Status.{Status, ok, bad_argument}
use airusb_hub.Protocol.Codec.Headers.{Header, encode_header}

pub record SegmentPlan : Type 0 where
  pub offset : ℕ
  pub len : ℕ
  pub first : Bool
  pub more : Bool

abbrev pub segment_at : ℕ → ℕ → ℕ → SegmentPlan
segment_at offset total_len max_segment_bytes =
    let remaining = total_len - offset in
    let len = if ltb remaining max_segment_bytes then remaining else max_segment_bytes in
    record { offset = offset; len = len; first = offset == 0; more = ltb (offset + len) total_len }

-- The loop, on fuel. Each round advances by a byte at least, so `total_len` rounds are enough.
pub plan_loop : ℕ → ℕ → ℕ → ℕ → List SegmentPlan
plan_loop zero offset total_len max_segment_bytes = []
plan_loop (suc fuel) offset total_len max_segment_bytes =
    let p = segment_at offset total_len max_segment_bytes in
    let rest = plan_loop fuel (offset + p.len) total_len max_segment_bytes in
    if ltb offset total_len then p ∷ rest else []

abbrev pub empty_segment : SegmentPlan
empty_segment = record { offset = 0; len = 0; first = true; more = false }

unfoldable pub plan_segments : ℕ → ℕ → List SegmentPlan
unfolding plan_loop
plan_segments total_len max_segment_bytes =
    if max_segment_bytes == 0
    then []
    else if total_len == 0
    then empty_segment ∷ []
    else plan_loop total_len 0 total_len max_segment_bytes

abbrev pub flag_seg_more : ℕ
flag_seg_more = 0x01

abbrev pub flag_seg_first : ℕ
flag_seg_first = 0x02

-- wire::Type::Data.
abbrev pub type_data : ℕ
type_data = 0x44

abbrev pub segment_flags : SegmentPlan → ℕ
segment_flags s =
    bit_or (if s.first then flag_seg_first else 0) (if s.more then flag_seg_more else 0)

-- The header of one record; `carries` says that it is the first, which has the fixed body.
unfoldable pub segment_header : Header → List ℕ → ℕ → SegmentPlan → Bool → Header
segment_header base fixed total s true = record base {
  seg_offset = s.offset;
  total_len = total;
  flags = segment_flags s;
  body_len = (length fixed + s.len) % 2 ^ 32;
}
segment_header base fixed total s false = record base {
  seg_offset = s.offset;
  total_len = total;
  flags = segment_flags s;
  type = type_data;
  status = 0;
  body_len = s.len;
}

-- The bytes of one record: header, the fixed body on the first, and the slice of the data.
unfoldable pub segment_record : Header → List ℕ → List ℕ → ℕ → SegmentPlan → Bool → List ℕ
unfolding segment_header
segment_record base fixed payload total s carries =
    (encode_header (segment_header base fixed total s carries) []
      ++ (if carries then fixed else []))
    ++ take s.len (drop s.offset payload)

-- The sender is a function on the caller's state; the first status that is not `ok` ends the loop.
module _ {ℓ} {S : Type ℓ} (send : S → List ℕ → S × Status) where
  emit_loop : Header → List ℕ → List ℕ → ℕ → List SegmentPlan → Bool → S → S × Status
  emit_loop base fixed payload total [] carries s = (s, ok)
  emit_loop base fixed payload total (p ∷ ps) carries s =
      let sent = send s (segment_record base fixed payload total p carries) in
      elim sent.1 [
        | ok ↦ emit_loop base fixed payload total ps false sent.0
        | other ↦ (sent.0, other)
      ]

  pub emit_transfer : Header → List ℕ → List ℕ → ℕ → S → S × Status
  unfolding emit_loop
  emit_transfer base fixed payload max_segment_bytes s =
      let total = length payload % 2 ^ 32 in
      if max_segment_bytes == 0
      then (s, bad_argument)
      else emit_loop base fixed payload total (plan_segments total max_segment_bytes) true s
