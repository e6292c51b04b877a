-- ===== src/Protocol/Reassembly/Examples.antt =====
-- The theorems of segmentation and reassembly at concrete inputs.
use airusb_hub.Base.{ℕ, ◌≡◌, ◌≢◌, refl, List, [], ◌∷◌, ◌++◌, ◌-◌, arith, length, replicate}
use airusb_hub.Core.Status.{ok}
use airusb_hub.Protocol.Codec.Headers.{Header, IsHeader}
use airusb_hub.Protocol.Segmentation.{plan_segments, emit_transfer}
use airusb_hub.Protocol.Segmentation.Plan.{Cuts, plan_segments-Cuts}
use airusb_hub.Protocol.Segmentation.Emit.{collect}
use airusb_hub.Protocol.Reassembly.{
  ReassemblyLimits, need_more, complete, fresh, find_partial, take_completed,
}
use airusb_hub.Protocol.Reassembly.Bounds.{IsBounded, run, accepts, clears, run-IsBounded}
use airusb_hub.Protocol.Reassembly.Wire.{receive_all}
use airusb_hub.Protocol.Reassembly.RoundTrip.{receive_all-emit_transfer}

-- A SUBMIT on channel 0x0181, and its five bytes in records of at most two.
abbrev submit : Header
submit = record {
  type = 0x40;
  flags = 0;
  channel = 0x181;
  body_len = 0;
  attach_id = 1;
  seg_offset = 0;
  request_id = 9;
  status = 0;
  device_epoch = 0;
  total_len = 5;
}

abbrev payload : List ℕ
payload = 1 ∷ 2 ∷ 3 ∷ 4 ∷ 5 ∷ []

abbrev small_limits : ReassemblyLimits
small_limits = record { max_transfer_bytes = 1024; arena_bytes = 4096; max_in_flight = 4 }

plan_segments-Cuts_example : Cuts 5 2 0 (plan_segments 5 2) × (plan_segments 5 2 ≢ [])
plan_segments-Cuts_example = plan_segments-Cuts 5 2 (omega arith)

run-IsBounded_example : IsBounded (run (accepts submit payload ∷ clears ∷ []) (fresh small_limits))
run-IsBounded_example = run-IsBounded small_limits (accepts submit payload ∷ clears ∷ [])

submit_valid : IsHeader submit
submit_valid = omega arith

receive_all-emit_transfer_example :
    let emitted = emit_transfer collect submit (7 ∷ []) payload 2 [] in
    let got = receive_all 1 emitted.0 (fresh small_limits) in
    (emitted.1 ≡ ok)
    × (got.1 ≡ replicate (length (plan_segments 5 2) - 1) need_more ++ (complete ∷ []))
    × ((take_completed submit got.0).1 ≡ payload)
    × (got.0.partials ≡ (fresh small_limits).partials)
    × (got.0.held ≡ (fresh small_limits).held)
unfolding fresh find_partial
receive_all-emit_transfer_example =
    receive_all-emit_transfer submit (7 ∷ []) payload submit_valid (omega arith) 2
      (fresh small_limits) (omega arith) refl (omega arith) (omega arith) (omega arith)

three_records : length (plan_segments 5 2) ≡ 3
unfolding plan_segments
three_records = refl
