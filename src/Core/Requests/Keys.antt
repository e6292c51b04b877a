-- ===== src/Core/Requests/Keys.antt =====
-- The keys of the table are distinct, so a request is handed back once; and the ids it makes.
use airusb_hub.Base.{
  ℕ, ◌+◌, ◌%◌, ◌<◌, ◌^◌, ◌≡◌, refl, Bool, false, not, none, List, [], ◌∷◌, arith, lookup,
  lookup-insert, keep_if, ◌==◌, if◌then◌else◌,
}
use airusb_hub.Core.Requests.{
  OutstandingRequest, RequestTable, empty_table, find, erase, record_request, add, take_request,
  drain, expired_requests, take_endpoint, take_attach, take_stale_epoch, is_outstanding, get,
  next_request_id, next_of,
}

-- No two requests of the list share channel and id.
abbrev pub Distinct : List OutstandingRequest → Type 0
Distinct [] = Unit {0}
Distinct (r ∷ rs) = (find r.channel r.request_id rs ≡ none) × Distinct rs

find-erase_none :
    (ch id ch' id' : ℕ) (rs : List OutstandingRequest)
    → find ch id rs ≡ none
    → find ch id (erase ch' id' rs) ≡ none
unfolding find erase
find-erase_none ch id ch' id' [] h = refl
find-erase_none ch id ch' id' (r ∷ rs) h = ground (arith, find-erase_none ch id ch' id' rs)

erase-Distinct :
    (ch id : ℕ) (rs : List OutstandingRequest) → Distinct rs → Distinct (erase ch id rs)
unfolding erase
erase-Distinct ch id [] d = tt
erase-Distinct ch id (r ∷ rs) d =
    ground (arith, erase-Distinct ch id rs d.1, find-erase_none r.channel r.request_id ch id rs d.0)

find-erase :
    (ch id : ℕ) (rs : List OutstandingRequest) → Distinct rs → find ch id (erase ch id rs) ≡ none
unfolding find erase
find-erase ch id [] d = refl
find-erase ch id (r ∷ rs) d = ground (arith, find-erase ch id rs d.1)

find-keep_if_none :
    (ch id : ℕ) (p : OutstandingRequest → Bool) (rs : List OutstandingRequest)
    → find ch id rs ≡ none
    → find ch id (keep_if p rs) ≡ none
unfolding find
find-keep_if_none ch id p [] h = refl
find-keep_if_none ch id p (r ∷ rs) h = ground (arith, find-keep_if_none ch id p rs)

keep_if-Distinct :
    (p : OutstandingRequest → Bool) (rs : List OutstandingRequest)
    → Distinct rs
    → Distinct (keep_if p rs)
keep_if-Distinct p [] d = tt
keep_if-Distinct p (r ∷ rs) d =
    ground (arith, keep_if-Distinct p rs d.1, find-keep_if_none r.channel r.request_id p rs d.0)

-- Each call of the table that changes what is outstanding keeps the keys distinct.
pub data Call : Type 0 where
  adds : OutstandingRequest → Call
  takes : ℕ → ℕ → Call
  expires : ℕ → Call
  takes_endpoint takes_stale : ℕ → ℕ → Call
  takes_attach makes_id : ℕ → Call

pub call : Call → RequestTable → RequestTable
call (adds r) t = (add r t).0
call (takes ch id) t = (take_request ch id t).0
call (expires now) t = (expired_requests now t).0
call (takes_endpoint attach ep) t = (take_endpoint attach ep t).0
call (takes_stale attach epoch) t = (take_stale_epoch attach epoch t).0
call (takes_attach attach) t = (take_attach attach t).0
call (makes_id ch) t = (next_request_id ch t).0

pub run : List Call → RequestTable → RequestTable
run [] t = t
run (c ∷ cs) t = run cs (call c t)

drain-Distinct :
    (p : OutstandingRequest → Bool) (t : RequestTable)
    → Distinct t.by_key
    → Distinct (drain p t).0.by_key
unfolding drain
drain-Distinct p t d = keep_if-Distinct (λ r. not (p r)) t.by_key d

call-Distinct : (c : Call) (t : RequestTable) → Distinct t.by_key → Distinct (call c t).by_key
unfolding call add take_request expired_requests take_endpoint take_stale_epoch take_attach
    next_request_id record_request
call-Distinct (adds r) t d = ground arith
call-Distinct (takes ch id) t d = ground (arith, erase-Distinct ch id t.by_key d)
call-Distinct (expires now) t d = drain-Distinct _ t d
call-Distinct (takes_endpoint attach ep) t d = drain-Distinct _ t d
call-Distinct (takes_stale attach epoch) t d = drain-Distinct _ t d
call-Distinct (takes_attach attach) t d = drain-Distinct _ t d
call-Distinct (makes_id ch) t d = d

run-Distinct : (cs : List Call) (t : RequestTable) → Distinct t.by_key → Distinct (run cs t).by_key
unfolding run
run-Distinct [] t d = d
run-Distinct (c ∷ cs) t d = run-Distinct cs (call c t) (call-Distinct c t d)

-- After any calls, `take_request` hands back what `get` shows, and then the key is free: a second
-- `take_request` of it finds nothing.
take_request_once :
    (cs : List Call) (ch id : ℕ)
    → let t = run cs empty_table in
      let (u, r) = take_request ch id t in
      (r ≡ get ch id t) × (is_outstanding ch id u ≡ false) × ((take_request ch id u).1 ≡ none)
unfolding take_request get is_outstanding
take_request_once cs ch id =
    ground (arith, find-erase ch id (run cs empty_table).by_key (run-Distinct cs empty_table tt))

-- Once an id was handed out on a channel, and before the 64-bit counter wraps, the next one on that
-- channel is one more, and the next one on any other channel is what it was.
next_request_id_next :
    (ch j : ℕ) (t : RequestTable)
    → (next_request_id ch t).1 + 1 < 2 ^ 64
    → (next_request_id j (next_request_id ch t).0).1
      ≡ (if ch == j then (next_request_id ch t).1 + 1 else (next_request_id j t).1)
unfolding next_request_id next_of
next_request_id_next ch j t h =
    ground (arith, lookup-insert ch j ((next_of (lookup ch t.next_id) + 1) % 2 ^ 64) t.next_id)
