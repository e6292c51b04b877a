-- ===== src/Protocol/Reassembly/Wire.antt =====
-- One record on the receiving side: decoded, and its payload handed to the reassembler.
use airusb_hub.Base.{
  ℕ, ◌+◌, ◌≤◌, ◌<◌, ◌^◌, ◌≡◌, refl, ap, Bool, true, false, none, some, List, [], ◌∷◌, ◌++◌, arith,
  if◌then◌else◌, length, take, drop, length-take, length-drop, drop-add, drop-append, append-nil,
  append_assoc,
}
use airusb_hub.Core.Status.{malformed_frame}
use airusb_hub.Protocol.Codec.Headers.{
  Header, IsHeader, header_size, decode_header, encode_header, decode_header-encode_header,
}
use airusb_hub.Protocol.Segmentation.{SegmentPlan, segment_header, segment_record}
use airusb_hub.Protocol.Reassembly.{
  Reassembler, Outcome, need_more, complete, rejected, seg_more, seg_first, accept,
}

-- A record as the sessions take it apart: the header, the fixed body of the first record, and the
-- payload, which goes to the reassembler.
unfoldable pub receive : ℕ → List ℕ → Reassembler → Reassembler × Outcome
receive fixed_len rec r = elim (decode_header rec) [
  | none ↦ (r, rejected malformed_frame)
  | some h ↦ accept h (drop (header_size + (if seg_first h then fixed_len else 0)) rec) r
]

unfoldable pub receive_all : ℕ → List (List ℕ) → Reassembler → Reassembler × List Outcome
receive_all fixed_len [] r = (r, [])
receive_all fixed_len (rec ∷ recs) r =
    let one = receive fixed_len rec r in
    let rest = receive_all fixed_len recs one.0 in (rest.0, one.1 ∷ rest.1)

-- What the outcomes should be: the transfer is complete at the last segment, and not before.
unfoldable pub outcomes : List SegmentPlan → List Outcome
outcomes [] = []
outcomes (p ∷ ps) = (if p.more then need_more else complete) ∷ outcomes ps

pub segment_flags_lem :
    (base : Header) (fixed : List ℕ) (total : ℕ) (p : SegmentPlan) (carries : Bool)
    → let h = segment_header base fixed total p carries in
      (seg_first h ≡ p.first) × (seg_more h ≡ p.more) × (h.flags < 256)
unfolding segment_header seg_first seg_more
segment_flags_lem base fixed total p true = ground arith
segment_flags_lem base fixed total p false = ground arith

drop_header :
    (h : Header) (n : ℕ) (rest : List ℕ)
    → drop (header_size + n) (encode_header h [] ++ rest) ≡ drop n rest
unfolding encode_header
drop_header h n rest = drop-add header_size n (encode_header h [] ++ rest)

receive-encode_header :
    (fixed_len : ℕ) (h : Header) (rest : List ℕ) (r : Reassembler)
    → IsHeader h
    → receive fixed_len (encode_header h [] ++ rest) r
      ≡ accept h (drop (if seg_first h then fixed_len else 0) rest) r
unfolding receive
receive-encode_header fixed_len h rest r v =
    rw (decode_header-encode_header h rest v, receive)
      (ap (λ p. accept h p r) (drop_header h (if seg_first h then fixed_len else 0) rest))

pub slice_length :
    (at len : ℕ) (payload : List ℕ)
    → at + len ≤ length payload
    → length (take len (drop at payload)) ≡ len
slice_length at len payload h =
    omega (arith, length-take len (drop at payload), length-drop at payload)

-- One transfer, the reassembler that it meets, and what is between them.
module _ (base : Header) (fixed payload : List ℕ) (valid : IsHeader base)
    (small : length fixed + length payload < 2 ^ 32) where
  segment_header-IsHeader :
      (p : SegmentPlan) (carries : Bool)
      → p.offset + p.len ≤ length payload
      → IsHeader (segment_header base fixed (length payload) p carries)
  unfolding segment_header
  segment_header-IsHeader p true h =
      let flagged = segment_flags_lem base fixed (length payload) p true in
      ground (arith, flagged.2)
  segment_header-IsHeader p false h =
      let flagged = segment_flags_lem base fixed (length payload) p false in
      ground (arith, flagged.2)

  pub receive-segment_record :
      (p : SegmentPlan) (carries : Bool) (r : Reassembler)
      → p.offset + p.len ≤ length payload
      → p.first ≡ carries
      → receive (length fixed) (segment_record base fixed payload (length payload) p carries) r
        ≡ accept
            (segment_header base fixed (length payload) p carries)
            (take p.len (drop p.offset payload))
            r
  unfolding segment_record
  receive-segment_record p true r h first =
      let hd = segment_header base fixed (length payload) p true in
      let slice = take p.len (drop p.offset payload) in
      let flagged = segment_flags_lem base fixed (length payload) p true in
      let reads =
        receive-encode_header (length fixed) hd (fixed ++ slice) r
          (segment_header-IsHeader p true h) in
      rw
        (
          append_assoc (encode_header hd []) fixed slice,
          reads,
          flagged.0,
          first,
          drop-append fixed slice,
        )
        refl
  receive-segment_record p false r h first =
      let hd = segment_header base fixed (length payload) p false in
      let slice = take p.len (drop p.offset payload) in
      let flagged = segment_flags_lem base fixed (length payload) p false in
      let reads =
        receive-encode_header (length fixed) hd slice r (segment_header-IsHeader p false h) in
      rw (append-nil (encode_header hd []), reads, flagged.0, first) refl
