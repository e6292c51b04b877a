-- ===== src/Protocol/Segmentation/Emit.antt =====
-- `emitTransfer` sends one record for each segment of the plan.
use airusb_hub.Base.{
  ℕ, ◌<◌, ◌^◌, ◌≡◌, ◌%◌, Bool, true, false, List, [], ◌∷◌, ◌++◌, arith, length, ◌∙◌, append-nil,
  append_assoc,
}
use airusb_hub.Core.Status.{Status, ok}
use airusb_hub.Protocol.Codec.Headers.{Header}
use airusb_hub.Protocol.Segmentation.{
  SegmentPlan, segment_record, emit_loop, emit_transfer, plan_segments,
}

-- A transport that takes every record.
abbrev pub collect : List (List ℕ) → List ℕ → List (List ℕ) × Status
collect sent record' = (sent ++ (record' ∷ []), ok)

unfoldable pub records : Header → List ℕ → List ℕ → ℕ → List SegmentPlan → Bool → List (List ℕ)
records base fixed payload total [] carries = []
records base fixed payload total (p ∷ ps) carries =
    segment_record base fixed payload total p carries ∷ records base fixed payload total ps false

emit_loop-collect :
    (base : Header) (fixed payload : List ℕ) (total : ℕ) (ps : List SegmentPlan) (carries : Bool)
    (sent : List (List ℕ))
    → emit_loop collect base fixed payload total ps carries sent
      ≡ (sent ++ records base fixed payload total ps carries, ok)
unfolding emit_loop records
emit_loop-collect base fixed payload total [] carries sent = rw append-nil
emit_loop-collect base fixed payload total (p ∷ ps) carries sent =
    let rec = segment_record base fixed payload total p carries in
    emit_loop-collect base fixed payload total ps false (sent ++ (rec ∷ []))
    ∙ rw (append_assoc sent (rec ∷ []) (records base fixed payload total ps false))

-- Over a transport that takes every record, each segment of the plan is sent once and in order.
pub emit_transfer-collect :
    (base : Header) (fixed payload : List ℕ) (cap : ℕ) (sent : List (List ℕ))
    → 0 < cap
    → length payload < 2 ^ 32
    → emit_transfer collect base fixed payload cap sent ≡ (
      sent ++ records base fixed payload (length payload) (plan_segments (length payload) cap) true,
      ok,
    )
unfolding emit_transfer
emit_transfer-collect base fixed payload cap sent hc hp =
    let size : length payload % 2 ^ 32 ≡ length payload = omega arith in
    ground (
      arith,
      size,
      emit_loop-collect base fixed payload (length payload) (plan_segments (length payload) cap)
          true sent,
    )
