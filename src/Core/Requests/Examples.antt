-- ===== src/Core/Requests/Examples.antt =====
-- The theorems of the request table at concrete inputs.
use airusb_hub.Base.{ℕ, ◌≡◌, ◌≢◌, refl, [], ◌∷◌, arith, lookup, insert}
use airusb_hub.Core.Status.{ok}
use airusb_hub.Core.Clock.{never}
use airusb_hub.Core.Usb.{XferType, Dir}
use airusb_hub.Core.Requests.{
  OutstandingRequest, RequestTable, find, add, take_request, record_request, erase,
}
use airusb_hub.Core.Requests.Ledger.{
  IsBalanced, Reach, here, next, added, taken, Reach-IsBalanced, add_reused,
}

abbrev request : ℕ → OutstandingRequest
request id = record {
  request_id = id;
  channel = 0x181;
  attach_id = 1;
  ep_addr = 0x81;
  xfer_type = XferType.bulk;
  dir = Dir.into;
  requested_len = 512;
  device_epoch = 0;
  ep_generation = 0;
  deadline = never;
  submitted_ns = 0;
}

abbrev one_out : RequestTable
one_out = record { by_key = request 7 ∷ []; last_seen = (0x181, 7) ∷ []; next_id = [] }

one_out_reached : Reach one_out (request 7 ∷ []) []
unfolding add find record_request lookup insert
one_out_reached = next here (added (request 7) refl refl refl)

none_out_reached : Reach (record one_out { by_key = [] }) (request 7 ∷ []) (request 7 ∷ [])
unfolding take_request find erase
none_out_reached = next one_out_reached (taken 0x181 7 (request 7) refl refl refl)

Reach-IsBalanced_example :
    IsBalanced (record one_out { by_key = [] }) (request 7 ∷ []) (request 7 ∷ [])
Reach-IsBalanced_example = Reach-IsBalanced none_out_reached

add_reused_example :
    let t : RequestTable = record one_out { by_key = [] } in
    ((add (request 6) t).0 ≡ t) × ((add (request 6) t).1 ≢ ok)
add_reused_example =
    add_reused [] [] (request 7) (request 6) none_out_reached refl refl (omega arith)
