-- ===== src/Protocol/Reassembly/Bounds.antt =====
-- What a peer can make the reassembler hold.
use airusb_hub.Base.{
  ℕ, ◌+◌, ◌≤◌, ◌<◌, ◌≡◌, refl, Bool, false, not, Option, none, some, List, [], ◌∷◌, ◌++◌, arith,
  length, sum_of-keep_if, length-append, All, All-keep_if, Option-cases, inl, inr, ◌==◌,
  length-keep_if,
}
use airusb_hub.Protocol.Codec.Headers.{Header}
use airusb_hub.Protocol.Reassembly.{
  ReassemblyLimits, Partial, Reassembler, find_partial, erase_partial, drop_entry, park,
  store_entry, append_segment, open_entry, accept_whole, accept_first, accept_at, accept,
  take_completed, bytes_of, forget_channel, forget, clear, fresh,
}

abbrev pub IsPartial : ReassemblyLimits → Partial → Type 0
IsPartial l p = (length p.bytes ≤ p.total_len) × (p.total_len ≤ l.max_transfer_bytes)

-- `held` counts what the partial transfers hold; no transfer is over its declared size nor over the
-- negotiated one, their number and their sum are capped, and so is a parked payload.
pub record IsBounded (r : Reassembler) : Type 0 where
  pub counted : r.held ≡ bytes_of r.partials
  pub each : All (IsPartial r.limits) r.partials
  pub arena : r.held ≤ r.limits.arena_bytes
  pub in_flight : length r.partials ≤ r.limits.max_in_flight
  pub parked : length r.completed ≤ r.limits.max_transfer_bytes

bytes_of-erase :
    (ch id : ℕ) (ps : List Partial) (p : Partial)
    → find_partial ch id ps ≡ some p
    → bytes_of ps ≡ length p.bytes + bytes_of (erase_partial ch id ps)
unfolding find_partial erase_partial
bytes_of-erase ch id [] p e = cc
bytes_of-erase ch id (q ∷ ps) p e = ground (arith, bytes_of-erase ch id ps p)

length-erase :
    (ch id : ℕ) (ps : List Partial) (p : Partial)
    → find_partial ch id ps ≡ some p
    → length ps ≡ 1 + length (erase_partial ch id ps)
unfolding find_partial erase_partial
length-erase ch id [] p e = cc
length-erase ch id (q ∷ ps) p e = ground (arith, length-erase ch id ps p)

All-erase :
    (P : Partial → Type 0) (ch id : ℕ) (ps : List Partial)
    → All P ps
    → All P (erase_partial ch id ps)
unfolding erase_partial
All-erase P ch id [] h = tt
All-erase P ch id (q ∷ ps) h = ground (arith, All-erase P ch id ps h.1)

pub All-find :
    (P : Partial → Type 0) (ch id : ℕ) (ps : List Partial) (p : Partial)
    → All P ps
    → find_partial ch id ps ≡ some p
    → P p
unfolding find_partial
All-find P ch id [] p h e = cc
All-find P ch id (q ∷ ps) p h e = ground (arith, All-find P ch id ps p h.1)

pub find_partial-key :
    (ch id : ℕ) (ps : List Partial) (p : Partial)
    → find_partial ch id ps ≡ some p
    → (p.channel ≡ ch) × (p.request_id ≡ id)
unfolding find_partial
find_partial-key ch id [] p e = cc
find_partial-key ch id (q ∷ ps) p e = ground (arith, find_partial-key ch id ps p)

pub find_partial_own :
    (ch id : ℕ) (ps : List Partial) (p : Partial)
    → find_partial ch id ps ≡ some p
    → find_partial p.channel p.request_id ps ≡ some p
find_partial_own ch id ps p e =
    let (at_channel, at_request) = find_partial-key ch id ps p e in simp (at_channel, at_request) e

drop_entry-IsBounded :
    (p : Partial) (r : Reassembler)
    → find_partial p.channel p.request_id r.partials ≡ some p
    → IsBounded r
    → IsBounded (drop_entry p r)
unfolding drop_entry
drop_entry-IsBounded p r e v = record {
  counted = omega (arith, v.counted, bytes_of-erase p.channel p.request_id r.partials p e);
  each = All-erase (IsPartial r.limits) p.channel p.request_id r.partials v.each;
  arena = omega (arith, v.arena);
  in_flight = omega (arith, v.in_flight, length-erase p.channel p.request_id r.partials p e);
  parked = v.parked;
}

store_entry-IsBounded :
    (p : Partial) (payload : List ℕ) (r : Reassembler)
    → find_partial p.channel p.request_id r.partials ≡ some p
    → length p.bytes + length payload ≤ p.total_len
    → r.held + length payload ≤ r.limits.arena_bytes
    → IsBounded r
    → IsBounded (store_entry p payload r)
unfolding store_entry
store_entry-IsBounded p payload r e fits room v =
    let size : length (p.bytes ++ payload) ≡ length p.bytes + length payload =
      length-append p.bytes payload in
    let ok_p = All-find (IsPartial r.limits) p.channel p.request_id r.partials p v.each e in
    record {
      counted =
          omega (arith, size, v.counted, bytes_of-erase p.channel p.request_id r.partials p e);
      each = (
        (omega (arith, size), ok_p.1),
        All-erase (IsPartial r.limits) p.channel p.request_id r.partials v.each,
      );
      arena = room;
      in_flight = omega (arith, v.in_flight, length-erase p.channel p.request_id r.partials p e);
      parked = v.parked;
    }

find-store_entry :
    (p : Partial) (payload : List ℕ) (r : Reassembler)
    → find_partial p.channel p.request_id (store_entry p payload r).partials
      ≡ some (record p { bytes = p.bytes ++ payload })
unfolding store_entry find_partial
find-store_entry p payload r = ground arith

park-IsBounded :
    (p : Partial) (r : Reassembler)
    → find_partial p.channel p.request_id r.partials ≡ some p
    → IsBounded r
    → IsBounded (park p r)
unfolding park
park-IsBounded p r e v =
    let ok_p = All-find (IsPartial r.limits) p.channel p.request_id r.partials p v.each e in
    let w = drop_entry-IsBounded p r e v in
    record {
      counted = w.counted;
      each = w.each;
      arena = w.arena;
      in_flight = w.in_flight;
      parked = omega (arith, ok_p.0, ok_p.1);
    }

append_segment-IsBounded :
    (h : Header) (payload : List ℕ) (p : Partial) (r : Reassembler)
    → find_partial p.channel p.request_id r.partials ≡ some p
    → IsBounded r
    → IsBounded (append_segment h payload p r).0
unfolding append_segment
append_segment-IsBounded h payload p r e v =
    let p' : Partial = record p { bytes = p.bytes ++ payload } in
    let r' = store_entry p payload r in
    ground (
      arith,
      drop_entry-IsBounded p r e v,
      find-store_entry p payload r,
      store_entry-IsBounded p payload r e,
      drop_entry-IsBounded p' r' (find-store_entry p payload r),
      park-IsBounded p' r' (find-store_entry p payload r),
    )

find-open_entry :
    (h : Header) (ps : List Partial)
    → find_partial h.channel h.request_id (open_entry h ∷ ps) ≡ some (open_entry h)
unfolding find_partial open_entry
find-open_entry h ps = ground arith

open_entry-IsBounded :
    (h : Header) (r : Reassembler)
    → h.total_len ≤ r.limits.max_transfer_bytes
    → length r.partials < r.limits.max_in_flight
    → IsBounded r
    → IsBounded (record r { partials = open_entry h ∷ r.partials })
unfolding open_entry
open_entry-IsBounded h r fits room v = record {
  counted = omega (arith, v.counted);
  each = ((omega arith, fits), v.each);
  arena = v.arena;
  in_flight = omega arith;
  parked = v.parked;
}

accept_first-IsBounded :
    (h : Header) (payload : List ℕ) (r : Reassembler)
    → h.total_len ≤ r.limits.max_transfer_bytes
    → IsBounded r
    → IsBounded (accept_first h payload r).0
unfolding accept_first open_entry
accept_first-IsBounded h payload r fits v =
    let r' : Reassembler = record r { partials = open_entry h ∷ r.partials } in
    ground (
      arith,
      open_entry-IsBounded h r fits,
      append_segment-IsBounded h payload (open_entry h) r' (find-open_entry h r.partials),
    )

reset-IsBounded :
    (r : Reassembler) → IsBounded r → IsBounded (record r { has_completed = false; completed = [] })
reset-IsBounded r v = record {
  counted = v.counted;
  each = v.each;
  arena = v.arena;
  in_flight = v.in_flight;
  parked = omega arith;
}

accept_at-IsBounded :
    (h : Header) (payload : List ℕ) (r : Reassembler) (o : Option Partial)
    → find_partial h.channel h.request_id r.partials ≡ o
    → IsBounded r
    → IsBounded (accept_at h payload r o).0
unfolding accept_at accept_whole
accept_at-IsBounded h payload r none e v = ground (arith, accept_first-IsBounded h payload r)
accept_at-IsBounded h payload r (some p) e v =
    let own = find_partial_own h.channel h.request_id r.partials p e in
    ground (arith, append_segment-IsBounded h payload p r own v)

accept-IsBounded :
    (h : Header) (payload : List ℕ) (r : Reassembler)
    → IsBounded r
    → IsBounded (accept h payload r).0
unfolding accept
accept-IsBounded h payload r v =
    let r0 : Reassembler = record r { has_completed = false; completed = [] } in
    accept_at-IsBounded h payload r0 _ refl (reset-IsBounded r v)

-- What the session calls on its reassembler.
pub data Call : Type 0 where
  accepts : Header → List ℕ → Call
  takes : Header → Call
  forgets_channel : ℕ → Call
  forgets : ℕ → ℕ → Call
  clears : Call

pub call : Call → Reassembler → Reassembler
call (accepts h payload) r = (accept h payload r).0
call (takes h) r = (take_completed h r).0
call (forgets_channel ch) r = forget_channel ch r
call (forgets ch id) r = forget ch id r
call clears r = clear r

pub run : List Call → Reassembler → Reassembler
run [] r = r
run (c ∷ cs) r = run cs (call c r)

call-IsBounded : (c : Call) (r : Reassembler) → IsBounded r → IsBounded (call c r)
unfolding call take_completed forget_channel forget clear
call-IsBounded (accepts h payload) r v = accept-IsBounded h payload r v
call-IsBounded (takes h) r v = ground arith
call-IsBounded (forgets_channel ch) r v =
    let at : Partial → Bool = λ p. p.channel == ch in
    record {
      counted = omega (arith, v.counted, sum_of-keep_if (λ p. length p.bytes) at r.partials);
      each = All-keep_if (IsPartial r.limits) (λ p. not (at p)) r.partials v.each;
      arena = omega (arith, v.arena);
      in_flight = omega (arith, v.in_flight, length-keep_if at r.partials);
      parked = v.parked;
    }
call-IsBounded (forgets ch id) r v = elim (Option-cases (find_partial ch id r.partials)) [
  | inl e ↦ rw (e, forget) v
  | inr (p, e) ↦ rw (e, forget) (drop_entry-IsBounded p r (find_partial_own ch id r.partials p e) v)
]
call-IsBounded clears r v = ground arith

-- Whatever a peer sends and the session calls, in any order: what a fresh reassembler holds is what
-- arrived, each transfer within its declared and the negotiated size, and the number of transfers
-- and the bytes held stay within their caps.
pub run-IsBounded : (l : ReassemblyLimits) (cs : List Call) → IsBounded (run cs (fresh l))
unfolding run fresh
run-IsBounded l cs = go cs (fresh l) (omega arith)
  where
    go : (cs : List Call) (r : Reassembler) → IsBounded r → IsBounded (run cs r)
    go [] r v = v
    go (c ∷ cs) r v = go cs (call c r) (call-IsBounded c r v)
