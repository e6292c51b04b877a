-- ===== src/Core/Requests.antt =====
-- airusb/core/RequestTable: the requests that are outstanding, and rule R8 on request ids.
--
-- The unordered map is the list of its values, newest first: the key of a value is its channel and
-- its id. The order in which a drain hands requests back is unspecified in the source.
pub mod Ledger
pub mod Keys
mod Examples
use airusb_hub.Base.{
  ℕ, ◌+◌, ◌%◌, ◌^◌, Bool, true, false, not, ◌&&◌, Option, none, some, List, [], ◌∷◌, leb, ◌==◌,
  if◌then◌else◌, keep_if, lookup, insert, length,
}
use airusb_hub.Core.Status.{Status, ok, already_exists, bad_argument}
use airusb_hub.Core.Clock.{Deadline, expired}
use airusb_hub.Core.Usb.{XferType, Dir}

pub record OutstandingRequest : Type 0 where
  pub request_id : ℕ
  pub channel : ℕ
  pub attach_id : ℕ
  pub ep_addr : ℕ
  pub xfer_type : XferType
  pub dir : Dir
  pub requested_len : ℕ
  pub device_epoch : ℕ
  pub ep_generation : ℕ
  pub deadline : Deadline
  pub submitted_ns : ℕ

pub record RequestTable : Type 0 where
  pub by_key : List OutstandingRequest
  pub last_seen : List (ℕ × ℕ)
  pub next_id : List (ℕ × ℕ)

abbrev pub empty_table : RequestTable
empty_table = record { by_key = []; last_seen = []; next_id = [] }

pub has_key : ℕ → ℕ → OutstandingRequest → Bool
has_key ch id r = r.channel == ch && r.request_id == id

pub find : ℕ → ℕ → List OutstandingRequest → Option OutstandingRequest
unfolding has_key
find ch id [] = none
find ch id (r ∷ rs) = if has_key ch id r then some r else find ch id rs

erase : ℕ → ℕ → List OutstandingRequest → List OutstandingRequest
unfolding has_key
erase ch id [] = []
erase ch id (r ∷ rs) = if has_key ch id r then rs else r ∷ erase ch id rs

-- `it != end && id <= it->second` of `add`.
seen_already : ℕ → Option ℕ → Bool
seen_already id none = false
seen_already id (some last) = leb id last

record_request : OutstandingRequest → RequestTable → RequestTable
record_request r t = record t {
  by_key = r ∷ t.by_key;
  last_seen = insert r.channel r.request_id t.last_seen;
}

pub add : OutstandingRequest → RequestTable → RequestTable × Status
unfolding record_request seen_already
add r t = elim (find r.channel r.request_id t.by_key) [
  | some live ↦ (t, already_exists)
  | none ↦
      if seen_already r.request_id (lookup r.channel t.last_seen)
      then (t, bad_argument)
      else (record_request r t, ok)
]

pub take_request : ℕ → ℕ → RequestTable → RequestTable × Option OutstandingRequest
take_request ch id t = elim (find ch id t.by_key) [
  | none ↦ (t, none)
  | some r ↦ (record t { by_key = erase ch id t.by_key }, some r)
]

pub is_outstanding : ℕ → ℕ → RequestTable → Bool
is_outstanding ch id t = elim (find ch id t.by_key) [ none ↦ false | some r ↦ true ]

pub get : ℕ → ℕ → RequestTable → Option OutstandingRequest
get ch id t = find ch id t.by_key

-- The loop that the four drains share: what passes the test is handed back and erased.
drain : (OutstandingRequest → Bool) → RequestTable → RequestTable × List OutstandingRequest
drain p t = (record t { by_key = keep_if (λ r. not (p r)) t.by_key }, keep_if p t.by_key)

pub expired_requests : ℕ → RequestTable → RequestTable × List OutstandingRequest
unfolding drain
expired_requests now = drain (λ r. expired now r.deadline)

pub take_endpoint : ℕ → ℕ → RequestTable → RequestTable × List OutstandingRequest
unfolding drain
take_endpoint attach ep = drain (λ r. r.attach_id == attach && r.ep_addr == ep)

pub take_attach : ℕ → RequestTable → RequestTable × List OutstandingRequest
unfolding drain
take_attach attach = drain (λ r. r.attach_id == attach)

pub take_stale_epoch : ℕ → ℕ → RequestTable → RequestTable × List OutstandingRequest
unfolding drain
take_stale_epoch attach epoch = drain (λ r. r.attach_id == attach && not (r.device_epoch == epoch))

-- A channel that was never used holds 0, and ids start at 1.
next_of : Option ℕ → ℕ
next_of none = 1
next_of (some n) = if n == 0 then 1 else n

pub next_request_id : ℕ → RequestTable → RequestTable × ℕ
unfolding next_of
next_request_id ch t =
    let n = next_of (lookup ch t.next_id) in
    (record t { next_id = insert ch ((n + 1) % 2 ^ 64) t.next_id }, n)
