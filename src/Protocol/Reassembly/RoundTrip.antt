-- ===== src/Protocol/Reassembly/RoundTrip.antt =====
-- What `emitTransfer` sends, a reassembler puts together again.
use airusb_hub.Base.{
  ℕ, ◌+◌, ◌-◌, ◌≤◌, ◌<◌, ◌^◌, ◌≡◌, ◌≢◌, refl, Bool, true, false, none, List, [], ◌∷◌, ◌++◌, arith,
  ltb, if◌then◌else◌, length, take, drop, length-append, length-take, take-add, take_of_length_le,
  replicate, subst, ◌∙◌, Bool-cases, inl, inr,
}
use airusb_hub.Core.Status.{ok}
use airusb_hub.Protocol.Codec.Headers.{Header, IsHeader}
use airusb_hub.Protocol.Segmentation.{
  SegmentPlan, segment_header, segment_record, plan_segments, emit_transfer,
}
use airusb_hub.Protocol.Segmentation.Plan.{Cuts, Cuts-le, Cuts-last, plan_segments-Cuts}
use airusb_hub.Protocol.Segmentation.Emit.{records, collect, emit_transfer-collect}
use airusb_hub.Protocol.Reassembly.Wire.{
  receive, receive_all, outcomes, segment_flags_lem, slice_length,
  receive-segment_record as received,
}
use airusb_hub.Protocol.Reassembly.{
  Partial, Reassembler, Outcome, need_more, complete, find_partial, erase_partial, accept,
  take_completed,
}

-- One transfer, the reassembler that it meets, and what is between them.
module _ (base : Header) (fixed payload : List ℕ) (valid : IsHeader base)
    (small : length fixed + length payload < 2 ^ 32) where
  abbrev entry : ℕ → Partial
  entry at = record {
    channel = base.channel;
    request_id = base.request_id;
    total_len = length payload;
    bytes = take at payload;
  }

  abbrev in_flight : ℕ → Reassembler → Reassembler
  in_flight at r = record r {
    partials = entry at ∷ r.partials;
    held = r.held + at;
    completed = [];
    has_completed = false;
  }

  abbrev done : Reassembler → Reassembler
  done r = record r {
    completed = payload;
    has_completed = true;
    completed_channel = base.channel;
    completed_request = base.request_id;
  }

  accept_next :
      (p : SegmentPlan) (r : Reassembler)
      → p.first ≡ false
      → p.offset + p.len ≤ length payload
      → p.more ≡ ltb (p.offset + p.len) (length payload)
      → length payload ≤ r.limits.max_transfer_bytes
      → r.held + length payload ≤ r.limits.arena_bytes
      → accept
          (segment_header base fixed (length payload) p false)
          (take p.len (drop p.offset payload))
          (in_flight p.offset r)
        ≡ (if p.more then (in_flight (p.offset + p.len) r, need_more) else (done r, complete))
  unfolding accept segment_header erase_partial
  accept_next p r first fits last limit room =
      let flagged = segment_flags_lem base fixed (length payload) p false in
      ground (
        arith,
        flagged.0,
        flagged.1,
        slice_length p.offset p.len payload fits,
        length-take p.offset payload,
        length-append (take p.offset payload) (take p.len (drop p.offset payload)),
        take-add p.offset p.len payload,
        take_of_length_le (p.offset + p.len) payload,
      )

  accept_opening :
      (p : SegmentPlan) (r : Reassembler)
      → p.first ≡ true
      → p.offset ≡ 0
      → p.len ≤ length payload
      → p.more ≡ ltb p.len (length payload)
      → find_partial base.channel base.request_id r.partials ≡ none
      → length r.partials < r.limits.max_in_flight
      → length payload ≤ r.limits.max_transfer_bytes
      → r.held + length payload ≤ r.limits.arena_bytes
      → accept
          (segment_header base fixed (length payload) p true)
          (take p.len (drop p.offset payload))
          r
        ≡ (if p.more then (in_flight p.len r, need_more) else (done r, complete))
  unfolding accept segment_header erase_partial
  accept_opening p r first at fits last absent slot limit room =
      let flagged = segment_flags_lem base fixed (length payload) p true in
      ground (
        arith,
        flagged.0,
        flagged.1,
        absent,
        slice_length 0 p.len payload,
        take_of_length_le p.len payload,
      )

  abbrev sent : List SegmentPlan → Bool → List (List ℕ)
  sent = records base fixed payload (length payload)

  abbrev verdict : ℕ → SegmentPlan → Reassembler → Reassembler × Outcome
  verdict at p r = if p.more then (in_flight (at + p.len) r, need_more) else (done r, complete)

  receive_next :
      (at : ℕ) (p : SegmentPlan) (r : Reassembler)
      → p.offset ≡ at
      → p.first ≡ false
      → at + p.len ≤ length payload
      → p.more ≡ ltb (at + p.len) (length payload)
      → length payload ≤ r.limits.max_transfer_bytes
      → r.held + length payload ≤ r.limits.arena_bytes
      → receive
          (length fixed)
          (segment_record base fixed payload (length payload) p false)
          (in_flight at r)
        ≡ verdict at p r
  receive_next at p r e first fits last limit room =
      let fits' : p.offset + p.len ≤ length payload = omega arith in
      let last' : p.more ≡ ltb (p.offset + p.len) (length payload) = rw e last in
      subst
        (λ k.
          receive (length fixed) (segment_record base fixed payload (length payload) p false)
            (in_flight k r)
          ≡ verdict k p r)
        e
        (received base fixed payload valid small p false (in_flight p.offset r) fits' first
          ∙ accept_next p r first fits' last' limit room)

  receive_all_next :
      (cap at : ℕ) (ps : List SegmentPlan) (r : Reassembler)
      → Cuts (length payload) cap at ps
      → 0 < at
      → at < length payload
      → length payload ≤ r.limits.max_transfer_bytes
      → r.held + length payload ≤ r.limits.arena_bytes
      → receive_all (length fixed) (sent ps false) (in_flight at r) ≡ (done r, outcomes ps)
  unfolding receive_all records outcomes
  receive_all_next cap at [] r c pos lt limit room = absurd (omega arith)
  receive_all_next cap at (p ∷ ps) r c pos lt limit room =
      let (off, _, _, first, last, tail) = c in
      let fits = Cuts-le (length payload) cap (at + p.len) ps tail in
      let not_first : p.first ≡ false = ground arith in
      let step = receive_next at p r off not_first fits last limit room in
      elim (Bool-cases p.more) [
        | inl more ↦
            let on : at + p.len < length payload = ground arith in
            let rest = receive_all_next cap (at + p.len) ps r tail (omega arith) on limit room in
            rw (step, more, rest) refl
        | inr over ↦
            let alone : ps ≡ [] = Cuts-last (length payload) cap at p ps c over in
            rw (alone, step, over) refl
      ]

  outcomes_end :
      (cap at : ℕ) (ps : List SegmentPlan)
      → Cuts (length payload) cap at ps
      → ps ≢ []
      → outcomes ps ≡ replicate (length ps - 1) need_more ++ (complete ∷ [])
  unfolding outcomes
  outcomes_end cap at [] c some_left = absurd (some_left refl)
  outcomes_end cap at (p ∷ []) (off, cap_le, pos, first, last, tail) some_left = ground arith
  outcomes_end cap at (p ∷ q ∷ ps) (off, cap_le, pos, first, last, tail) some_left =
      let later = Cuts-le (length payload) cap (at + p.len + q.len) ps tail.5 in
      let rest = outcomes_end cap (at + p.len) (q ∷ ps) tail (λ e. cc) in
      let more : p.more ≡ true = ground (arith, later) in rw (more, rest) (ground arith)

  receive_all_plan :
      (cap : ℕ) (ps : List SegmentPlan) (r : Reassembler)
      → Cuts (length payload) cap 0 ps
      → ps ≢ []
      → find_partial base.channel base.request_id r.partials ≡ none
      → length r.partials < r.limits.max_in_flight
      → length payload ≤ r.limits.max_transfer_bytes
      → r.held + length payload ≤ r.limits.arena_bytes
      → receive_all (length fixed) (sent ps true) r ≡ (done r, outcomes ps)
  unfolding receive_all records outcomes
  receive_all_plan cap [] r c some_left absent slot limit room = absurd (some_left refl)
  receive_all_plan cap (p ∷ ps) r c some_left absent slot limit room =
      let (off, _, pos, first, last, tail) = c in
      let fits = Cuts-le (length payload) cap (0 + p.len) ps tail in
      let opening : p.first ≡ true = first in
      let at_end : p.more ≡ ltb p.len (length payload) = ground arith in
      let step =
        received base fixed payload valid small p true r (omega arith) opening
        ∙ accept_opening p r opening off (omega arith) at_end absent slot limit room in
      elim (Bool-cases p.more) [
        | inl more ↦
            let on : p.len < length payload = ground arith in
            let moved : Cuts (length payload) cap p.len ps =
              subst (λ k. Cuts (length payload) cap k ps) (omega arith) tail in
            let ahead : 0 < p.len = ground arith in
            let rest = receive_all_next cap p.len ps r moved ahead on limit room in
            rw (step, more, rest) refl
        | inr over ↦
            let alone : ps ≡ [] = Cuts-last (length payload) cap 0 p ps c over in
            rw (alone, step, over) refl
      ]

  -- What `emitTransfer` sends over a transport that takes every record, put through the framing and
  -- the reassembler record by record, is complete at the last record and not before, and
  -- `take_completed` then hands out the payload; what else the reassembler held is as it was. The
  -- segments have a positive cap, the header's fields are in range, the fixed body and the payload
  -- are less than 2 ^ 32 bytes, the transfer's key is not in flight, and the reassembler has room.
  pub receive_all-emit_transfer :
      (cap : ℕ) (r : Reassembler)
      → 0 < cap
      → find_partial base.channel base.request_id r.partials ≡ none
      → length r.partials < r.limits.max_in_flight
      → length payload ≤ r.limits.max_transfer_bytes
      → r.held + length payload ≤ r.limits.arena_bytes
      → let emitted = emit_transfer collect base fixed payload cap [] in
        let got = receive_all (length fixed) emitted.0 r in
        let n = length (plan_segments (length payload) cap) in
        (emitted.1 ≡ ok)
        × (got.1 ≡ replicate (n - 1) need_more ++ (complete ∷ []))
        × ((take_completed base got.0).1 ≡ payload)
        × (got.0.partials ≡ r.partials)
        × (got.0.held ≡ r.held)
  unfolding take_completed
  receive_all-emit_transfer cap r pos absent slot limit room =
      let (cuts, some_left) = plan_segments-Cuts (length payload) cap pos in
      let plan = plan_segments (length payload) cap in
      let sends = emit_transfer-collect base fixed payload cap [] pos (omega arith) in
      let gets = receive_all_plan cap plan r cuts some_left absent slot limit room in
      let ends = outcomes_end cap 0 plan cuts some_left in rw (sends, gets, ends) (ground arith)
