-- ===== src/Protocol/Reassembly.antt =====
-- airusb/protocol/Segmentation, the receiving half: the `Reassembler`.
--
-- The ordered map is a list of its entries, which is searched by key. The error that `accept` sets
-- beside `Rejected` is an argument of that outcome. Sizes are those of buffers in memory, and
-- `held` is the sum of such, so neither wraps.
pub mod Bounds
pub mod Wire
pub mod RoundTrip
mod Examples
use airusb_hub.Base.{
  ℕ, ◌+◌, ◌-◌, Bool, true, false, not, ◌&&◌, Option, none, some, List, [], ◌∷◌, ◌++◌, bit_and, ltb,
  leb, ◌==◌, if◌then◌else◌, length, keep_if, sum_of,
}
use airusb_hub.Core.Status.{Status, malformed_frame, limit_exceeded}
use airusb_hub.Protocol.Codec.Headers.{Header}
use airusb_hub.Protocol.Segmentation.{flag_seg_more, flag_seg_first}

pub record ReassemblyLimits : Type 0 where
  pub max_transfer_bytes : ℕ
  pub arena_bytes : ℕ
  pub max_in_flight : ℕ

-- An entry of `_partial`, its key first.
pub record Partial : Type 0 where
  pub channel : ℕ
  pub request_id : ℕ
  pub total_len : ℕ
  pub bytes : List ℕ

pub record Reassembler : Type 0 where
  pub limits : ReassemblyLimits
  pub partials : List Partial
  pub held : ℕ
  pub completed : List ℕ
  pub has_completed : Bool
  pub completed_channel : ℕ
  pub completed_request : ℕ

pub data Outcome : Type 0 where
  need_more complete : Outcome
  rejected : Status → Outcome

unfoldable pub seg_more : Header → Bool
seg_more h = not (bit_and h.flags flag_seg_more == 0)

pub seg_first : Header → Bool
seg_first h = not (bit_and h.flags flag_seg_first == 0)

abbrev pub is_at : ℕ → ℕ → Partial → Bool
is_at ch id p = p.channel == ch && p.request_id == id

pub find_partial : ℕ → ℕ → List Partial → Option Partial
find_partial ch id [] = none
find_partial ch id (p ∷ ps) = if is_at ch id p then some p else find_partial ch id ps

pub erase_partial : ℕ → ℕ → List Partial → List Partial
erase_partial ch id [] = []
erase_partial ch id (p ∷ ps) = if is_at ch id p then ps else p ∷ erase_partial ch id ps

-- `_held -= p.bytes.size(); _partial.erase(it)`.
pub drop_entry : Partial → Reassembler → Reassembler
drop_entry p r = record r {
  partials = erase_partial p.channel p.request_id r.partials;
  held = r.held - length p.bytes;
}

park : Partial → Reassembler → Reassembler
unfolding drop_entry
park p r = record (drop_entry p r) {
  completed = p.bytes;
  has_completed = true;
  completed_channel = p.channel;
  completed_request = p.request_id;
}

-- The entry with the new bytes takes the place of the old one.
store_entry : Partial → List ℕ → Reassembler → Reassembler
store_entry p payload r = record r {
  partials =
      record p { bytes = p.bytes ++ payload } ∷ erase_partial p.channel p.request_id r.partials;
  held = r.held + length payload;
}

-- From `Partial& p = it->second` on: the entry `p` is in the map.
append_segment : Header → List ℕ → Partial → Reassembler → Reassembler × Outcome
unfolding seg_more park store_entry drop_entry
append_segment h payload p r =
    if not (h.seg_offset == length p.bytes)
    then (drop_entry p r, rejected malformed_frame)
    else if ltb p.total_len (length p.bytes + length payload)
    then (drop_entry p r, rejected malformed_frame)
    else if ltb r.limits.arena_bytes (r.held + length payload)
    then (drop_entry p r, rejected limit_exceeded)
    else let p' = record p { bytes = p.bytes ++ payload } in
      let r' = store_entry p payload r in
      if seg_more h
      then (r', need_more)
      else if not (length p'.bytes == p.total_len)
      then (drop_entry p' r', rejected malformed_frame)
      else (park p' r', complete)

open_entry : Header → Partial
open_entry h = record {
  channel = h.channel;
  request_id = h.request_id;
  total_len = h.total_len;
  bytes = [];
}

-- A message with neither flag, on a key with nothing in flight.
accept_whole : Header → List ℕ → Reassembler → Reassembler × Outcome
accept_whole h payload r =
    if ltb r.limits.max_transfer_bytes h.total_len
    then (r, rejected limit_exceeded)
    else if not (length payload == h.total_len)
    then (r, rejected malformed_frame)
    else (
      record r {
        completed = payload;
        has_completed = true;
        completed_channel = h.channel;
        completed_request = h.request_id;
      },
      complete,
    )

accept_first : Header → List ℕ → Reassembler → Reassembler × Outcome
unfolding open_entry append_segment
accept_first h payload r =
    if not (h.seg_offset == 0)
    then (r, rejected malformed_frame)
    else if leb r.limits.max_in_flight (length r.partials)
    then (r, rejected limit_exceeded)
    else append_segment h payload (open_entry h) (record r { partials = open_entry h ∷ r.partials })

-- The cases of `accept`, by whether the key is in flight.
accept_at : Header → List ℕ → Reassembler → Option Partial → Reassembler × Outcome
unfolding seg_first seg_more accept_whole accept_first append_segment
accept_at h payload r none =
    if not (seg_first h) && not (seg_more h)
    then accept_whole h payload r
    else if ltb r.limits.max_transfer_bytes h.total_len
    then (r, rejected limit_exceeded)
    else if seg_first h
    then accept_first h payload r
    else (r, rejected malformed_frame)
accept_at h payload r (some p) =
    if ltb r.limits.max_transfer_bytes h.total_len
    then (r, rejected limit_exceeded)
    else if seg_first h
    then (r, rejected malformed_frame)
    else if not (h.total_len == p.total_len)
    then (r, rejected malformed_frame)
    else append_segment h payload p r

pub accept : Header → List ℕ → Reassembler → Reassembler × Outcome
unfolding accept_at find_partial
accept h payload r =
    accept_at h payload (record r { has_completed = false; completed = [] })
      (find_partial h.channel h.request_id r.partials)

pub take_completed : Header → Reassembler → Reassembler × List ℕ
take_completed h r =
    if r.has_completed && (r.completed_channel == h.channel && r.completed_request == h.request_id)
    then (record r { has_completed = false; completed = [] }, r.completed)
    else (r, [])

abbrev pub bytes_of : List Partial → ℕ
bytes_of = sum_of (λ p. length p.bytes)

pub forget_channel : ℕ → Reassembler → Reassembler
forget_channel ch r = record r {
  partials = keep_if (λ p. not (p.channel == ch)) r.partials;
  held = r.held - bytes_of (keep_if (λ p. p.channel == ch) r.partials);
}

pub forget : ℕ → ℕ → Reassembler → Reassembler
unfolding find_partial drop_entry
forget ch id r = elim (find_partial ch id r.partials) [ none ↦ r | some p ↦ drop_entry p r ]

pub clear : Reassembler → Reassembler
clear r = record r { partials = []; held = 0; completed = []; has_completed = false }

pub fresh : ReassemblyLimits → Reassembler
fresh l = record {
  limits = l;
  partials = [];
  held = 0;
  completed = [];
  has_completed = false;
  completed_channel = 0;
  completed_request = 0;
}
