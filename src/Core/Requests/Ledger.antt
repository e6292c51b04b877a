-- ===== src/Core/Requests/Ledger.antt =====
-- The table against the history of what it accepted and what it handed back.
use airusb_hub.Base.{
  ℕ, ◌+◌, ◌≤◌, ◌<◌, ◌≡◌, ◌≢◌, ◌⊎◌, refl, sym, Bool, false, none, some, List, [], ◌∷◌, ◌++◌, arith,
  lookup, insert, lookup-insert, sum_of, sum_of-append, sum_of-keep_if, All, All-middle, All-map,
  keep_if, Option-cases, inl, inr, Bool-cases, ==_iff, ==_refl, ap, ◌==◌,
}
use airusb_hub.Core.Status.{Status, ok}
use airusb_hub.Core.Requests.{
  OutstandingRequest, RequestTable, empty_table, find, erase, seen_already, record_request, add,
  take_request, drain, expired_requests, take_endpoint, take_attach, take_stale_epoch,
  next_request_id,
}

-- The id of `r` is no more than the last one seen on its channel.
abbrev pub Tracked : List (ℕ × ℕ) → OutstandingRequest → Type 0
Tracked seen r = (n : ℕ) × (lookup r.channel seen ≡ some n) × (r.request_id ≤ n)

-- The other request is of another channel, or its id is below that of `r`.
abbrev pub IsBelow : OutstandingRequest → OutstandingRequest → Type 0
IsBelow r a = (a.channel ≢ r.channel) ⊎ (a.request_id < r.request_id)

-- The last request comes first: on each channel the ids rise.
abbrev pub IsRising : List OutstandingRequest → Type 0
IsRising [] = Unit
IsRising (r ∷ rs) = All (IsBelow r) rs × IsRising rs

-- What was accepted is outstanding or was handed back, each request as often: the two sides agree
-- on every sum over the requests.
pub record IsBalanced (t : RequestTable) (accepted returned : List OutstandingRequest)
    : Type 0 where
  pub balance :
      (f : OutstandingRequest → ℕ) → sum_of f accepted ≡ sum_of f t.by_key + sum_of f returned
  pub tracked : All (Tracked t.last_seen) accepted
  pub rising : IsRising accepted

-- One call on the table, and what it does to the history.
pub data Step (t : RequestTable) (acc ret : List OutstandingRequest) (t' : RequestTable)
    (acc' ret' : List OutstandingRequest) : Type 0 where
  added :
      (r : OutstandingRequest)
      → add r t ≡ (t', ok)
      → acc' ≡ r ∷ acc
      → ret' ≡ ret
      → Step t acc ret t' acc' ret'
  refused :
      (r : OutstandingRequest) (s : Status)
      → add r t ≡ (t', s)
      → s ≢ ok
      → acc' ≡ acc
      → ret' ≡ ret
      → Step t acc ret t' acc' ret'
  taken :
      (ch id : ℕ) (r : OutstandingRequest)
      → take_request ch id t ≡ (t', some r)
      → acc' ≡ acc
      → ret' ≡ r ∷ ret
      → Step t acc ret t' acc' ret'
  missed :
      (ch id : ℕ)
      → take_request ch id t ≡ (t', none)
      → acc' ≡ acc
      → ret' ≡ ret
      → Step t acc ret t' acc' ret'
  expires :
      (now : ℕ) (rs : List OutstandingRequest)
      → expired_requests now t ≡ (t', rs)
      → acc' ≡ acc
      → ret' ≡ rs ++ ret
      → Step t acc ret t' acc' ret'
  endpoint_taken :
      (attach ep : ℕ) (rs : List OutstandingRequest)
      → take_endpoint attach ep t ≡ (t', rs)
      → acc' ≡ acc
      → ret' ≡ rs ++ ret
      → Step t acc ret t' acc' ret'
  attach_taken :
      (attach : ℕ) (rs : List OutstandingRequest)
      → take_attach attach t ≡ (t', rs)
      → acc' ≡ acc
      → ret' ≡ rs ++ ret
      → Step t acc ret t' acc' ret'
  stale_taken :
      (attach epoch : ℕ) (rs : List OutstandingRequest)
      → take_stale_epoch attach epoch t ≡ (t', rs)
      → acc' ≡ acc
      → ret' ≡ rs ++ ret
      → Step t acc ret t' acc' ret'
  id_made :
      (ch n : ℕ)
      → next_request_id ch t ≡ (t', n)
      → acc' ≡ acc
      → ret' ≡ ret
      → Step t acc ret t' acc' ret'

pub data Reach : RequestTable → List OutstandingRequest → List OutstandingRequest → Type 0 where
  here : Reach empty_table [] []
  next :
      {t u : RequestTable} {acc acc' ret ret' : List OutstandingRequest}
      → Reach t acc ret
      → Step t acc ret u acc' ret'
      → Reach u acc' ret'

Tracked-insert :
    (seen : List (ℕ × ℕ)) (r : OutstandingRequest)
    → seen_already r.request_id (lookup r.channel seen) ≡ false
    → (a : OutstandingRequest) → Tracked seen a
    → Tracked (insert r.channel r.request_id seen) a
unfolding seen_already
Tracked-insert seen r h a (n, e, le) = elim (Bool-cases (r.channel == a.channel)) [
  | inl same ↦ (r.request_id, rw (lookup-insert, same), ground (arith, e, (==_iff _ _).0 same))
  | inr other ↦ (n, rw (lookup-insert, other) e, le)
]

Tracked-IsBelow :
    (seen : List (ℕ × ℕ)) (r : OutstandingRequest)
    → seen_already r.request_id (lookup r.channel seen) ≡ false
    → (a : OutstandingRequest) → Tracked seen a
    → IsBelow r a
unfolding seen_already
Tracked-IsBelow seen r h a (n, e, le) = elim (Bool-cases (a.channel == r.channel)) [
  | inl same ↦ inr (ground (arith, e, (==_iff _ _).0 same))
  | inr other ↦ inl (ground (arith, other))
]

abbrev FreshRefusal : OutstandingRequest → RequestTable → Type 0
FreshRefusal r t = seen_already r.request_id (lookup r.channel t.last_seen) ≡ false

add_ok :
    (r : OutstandingRequest) (t t' : RequestTable)
    → add r t ≡ (t', ok)
    → (t' ≡ record_request r t) × FreshRefusal r t
unfolding add
add_ok r t t' e = ground arith

add_refused :
    (r : OutstandingRequest) (t t' : RequestTable) (s : Status)
    → add r t ≡ (t', s)
    → s ≢ ok
    → t' ≡ t
unfolding add
add_refused r t t' s e h = ground arith

sum_of-erase :
    (f : OutstandingRequest → ℕ) (ch id : ℕ) (rs : List OutstandingRequest) (r : OutstandingRequest)
    → find ch id rs ≡ some r
    → sum_of f rs ≡ f r + sum_of f (erase ch id rs)
unfolding find erase
sum_of-erase f ch id [] r e = cc
sum_of-erase f ch id (x ∷ rs) r e = ground (arith, sum_of-erase f ch id rs r)

IsBalanced-transfer :
    {t u : RequestTable} {acc acc' ret ret' : List OutstandingRequest}
    → u ≡ t
    → acc' ≡ acc
    → ret' ≡ ret
    → IsBalanced t acc ret
    → IsBalanced u acc' ret'
IsBalanced-transfer p q r v = rw (p, q, r) v

add-IsBalanced :
    (r : OutstandingRequest) (t : RequestTable) (acc ret : List OutstandingRequest)
    → FreshRefusal r t
    → IsBalanced t acc ret
    → IsBalanced (record_request r t) (r ∷ acc) ret
unfolding record_request
add-IsBalanced r t acc ret h v = record {
  balance = λ f. omega (arith, v.balance f);
  tracked = (
    (r.request_id, rw (lookup-insert, ==_refl r.channel), omega arith),
    All-map _ _ acc (Tracked-insert t.last_seen r h) v.tracked,
  );
  rising = (All-map _ _ acc (Tracked-IsBelow t.last_seen r h) v.tracked, v.rising);
}

take-IsBalanced :
    (ch id : ℕ) (t u : RequestTable) (r : OutstandingRequest) (acc ret : List OutstandingRequest)
    → take_request ch id t ≡ (u, some r)
    → IsBalanced t acc ret
    → IsBalanced u acc (r ∷ ret)
unfolding take_request
take-IsBalanced ch id t u r acc ret e v = elim (Option-cases (find ch id t.by_key)) [
  | inl missing ↦ ground arith
  | inr (x, found) ↦
      let same : x ≡ r = ground arith in
      let after : u ≡ record t { by_key = erase ch id t.by_key } = ground arith in
      rw (after, ← same)
        (record {
          balance = λ f. omega (arith, v.balance f, sum_of-erase f ch id t.by_key x found);
          tracked = v.tracked;
          rising = v.rising;
        })
]

take_missed : (ch id : ℕ) (t u : RequestTable) → take_request ch id t ≡ (u, none) → u ≡ t
unfolding take_request
take_missed ch id t u e = ground arith

drain-IsBalanced :
    (p : OutstandingRequest → Bool) (t u : RequestTable) (rs acc ret : List OutstandingRequest)
    → drain p t ≡ (u, rs)
    → IsBalanced t acc ret
    → IsBalanced u acc (rs ++ ret)
unfolding drain
drain-IsBalanced p t u rs acc ret e v =
    let left : u ≡ (drain p t).0 = ap (λ q. q.0) (sym e) in
    let back : rs ≡ keep_if p t.by_key = ap (λ q. q.1) (sym e) in
    rw (left, back)
      (record {
        balance = λ f. omega (
          arith,
          v.balance f,
          sum_of-append f (keep_if p t.by_key) ret,
          sum_of-keep_if f p t.by_key,
        );
        tracked = v.tracked;
        rising = v.rising;
      })

next_id-IsBalanced :
    (ch n : ℕ) (t u : RequestTable) (acc ret : List OutstandingRequest)
    → next_request_id ch t ≡ (u, n)
    → IsBalanced t acc ret
    → IsBalanced u acc ret
unfolding next_request_id
next_id-IsBalanced ch n t u acc ret e v =
    let left : u ≡ (next_request_id ch t).0 = ap (λ q. q.0) (sym e) in
    rw left (record { balance = v.balance; tracked = v.tracked; rising = v.rising })

Step-IsBalanced :
    {t u : RequestTable} {acc acc' ret ret' : List OutstandingRequest}
    → Step t acc ret u acc' ret'
    → IsBalanced t acc ret
    → IsBalanced u acc' ret'
unfolding expired_requests take_endpoint take_attach take_stale_epoch
Step-IsBalanced {t} {u} {acc} {acc'} {ret} (added r e a b) v =
    let (after, fresh) = add_ok r t u e in
    IsBalanced-transfer after a b (add-IsBalanced r t acc ret fresh v)
Step-IsBalanced {t} {u} (refused r s e h a b) v =
    IsBalanced-transfer (add_refused r t u s e h) a b v
Step-IsBalanced {t} {u} {acc} {acc'} {ret} (taken ch id r e a b) v =
    IsBalanced-transfer refl a b (take-IsBalanced ch id t u r acc ret e v)
Step-IsBalanced {t} {u} (missed ch id e a b) v = IsBalanced-transfer (take_missed ch id t u e) a b v
Step-IsBalanced {t} {u} {acc} {acc'} {ret} (expires now rs e a b) v =
    IsBalanced-transfer refl a b (drain-IsBalanced _ t u rs acc ret e v)
Step-IsBalanced {t} {u} {acc} {acc'} {ret} (endpoint_taken attach ep rs e a b) v =
    IsBalanced-transfer refl a b (drain-IsBalanced _ t u rs acc ret e v)
Step-IsBalanced {t} {u} {acc} {acc'} {ret} (attach_taken attach rs e a b) v =
    IsBalanced-transfer refl a b (drain-IsBalanced _ t u rs acc ret e v)
Step-IsBalanced {t} {u} {acc} {acc'} {ret} (stale_taken attach epoch rs e a b) v =
    IsBalanced-transfer refl a b (drain-IsBalanced _ t u rs acc ret e v)
Step-IsBalanced {t} {u} {acc} {acc'} {ret} (id_made ch n e a b) v =
    IsBalanced-transfer refl a b (next_id-IsBalanced ch n t u acc ret e v)

-- After any history of calls: each request that was accepted is outstanding or was handed back,
-- once for each time it was accepted, no accepted id is above the last one of its channel, and on
-- each channel the ids rise from one accepted request to the next.
pub Reach-IsBalanced :
    {t : RequestTable} {acc ret : List OutstandingRequest} → Reach t acc ret → IsBalanced t acc ret
Reach-IsBalanced here = record { balance = λ f. omega arith; tracked = tt; rising = tt }
Reach-IsBalanced (next r s) = Step-IsBalanced s (Reach-IsBalanced r)

-- After any history, an id at or below one that was ever accepted on the channel is refused, and
-- the table stays as it was: a request id is never used twice, also when its request is long gone.
pub add_reused :
    {t : RequestTable} {acc ret : List OutstandingRequest} (front back : List OutstandingRequest)
    (a r : OutstandingRequest)
    → Reach t acc ret
    → acc ≡ front ++ (a ∷ back)
    → r.channel ≡ a.channel
    → r.request_id ≤ a.request_id
    → ((add r t).0 ≡ t) × ((add r t).1 ≢ ok)
unfolding add seen_already
add_reused {t} {acc} front back a r reach e same le =
    let v = Reach-IsBalanced reach in
    let all : All (Tracked t.last_seen) (front ++ (a ∷ back)) = rw e at v.tracked in
    let (n, seen, bound) = All-middle (Tracked t.last_seen) front a back all in
    ground (arith, seen, bound)
