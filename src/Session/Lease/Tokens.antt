-- ===== src/Session/Lease/Tokens.antt =====
-- Attach ids are not used twice, and a recovery token opens once.
use airusb_hub.Base.{
  ℕ, ◌≡◌, ◌≢◌, ◌<◌, ◌+◌, ◌≤◌, ◌^◌, List, [], ◌∷◌, ◌++◌, arith, All, length, IsByte, ◌⊎◌, inl, inr,
}
use airusb_hub.Core.Status.{Status, ok, not_permitted}
use airusb_hub.Crypto.{constant_time_equals_iff}
use airusb_hub.Session.Lease.{
  LeaseAuthority, init, may_claim, grant, heard, quarantine, force_reclaim, release, try_recover,
}
use airusb_hub.Session.Lease.Custody.{
  Event, claims, hears, drops, sweeps, releases, reclaims, recovers, step,
}

-- The attach id that an event hands out.
abbrev handed : Status → ℕ → List ℕ
handed ok id = id ∷ []
handed other id = []

pub new_id : Event → LeaseAuthority → List ℕ
new_id (claims now fresh peer uid) a = handed (may_claim peer uid a) (grant now fresh peer uid a).1
new_id (recovers now fresh peer token) a =
    handed (try_recover now fresh peer token a).1 (try_recover now fresh peer token a).0.s.attach_id
new_id other a = []

pub ids : List Event → LeaseAuthority → List ℕ
ids [] a = []
ids (e ∷ es) a = new_id e a ++ ids es (step e a)

-- Each number is above the one before it, and the first above `lo`.
abbrev pub Rising : ℕ → List ℕ → Type 0
Rising lo [] = Unit {0}
Rising lo (x ∷ xs) = (lo < x) × Rising x xs

Rising-mono : (lo lo' : ℕ) (xs : List ℕ) → lo ≤ lo' → Rising lo' xs → Rising lo xs
Rising-mono lo lo' [] h r = tt
Rising-mono lo lo' (x ∷ xs) h r = (omega arith, r.1)

-- One event: no id and the counter as it was, or the counter's value and the counter moved on.
step_ids :
    (e : Event) (a : LeaseAuthority)
    → a.next_attach_id + 1 < 2 ^ 32
    → ((new_id e a ≡ []) × ((step e a).next_attach_id ≡ a.next_attach_id))
      ⊎ ((new_id e a ≡ a.next_attach_id ∷ []) × ((step e a).next_attach_id ≡ a.next_attach_id + 1))
unfolding step new_id heard quarantine release force_reclaim try_recover grant may_claim
step_ids (claims now fresh peer uid) a h = ground arith
step_ids (hears now peer) a h = ground arith
step_ids (drops now) a h = ground arith
step_ids (sweeps now) a h = ground arith
step_ids (releases now peer) a h = ground arith
step_ids (reclaims now) a h = ground arith
step_ids (recovers now fresh peer token) a h = ground arith

ids-Rising_from :
    (es : List Event) (a : LeaseAuthority) (lo : ℕ)
    → lo < a.next_attach_id
    → a.next_attach_id + length es < 2 ^ 32
    → Rising lo (ids es a)
unfolding ids
ids-Rising_from [] a lo h room = tt
ids-Rising_from (e ∷ es) a lo h room = elim (step_ids e a (omega arith)) [
  | inl (none_new, same) ↦
      rw none_new (ids-Rising_from es (step e a) lo (omega arith) (omega arith))
  | inr (new, moved) ↦
      rw new (h, ids-Rising_from es (step e a) a.next_attach_id (omega arith) (omega arith))
]

-- While the 32-bit counter has not wrapped, the attach ids that grants and recoveries hand out in
-- any history, releases and reclaims included, rise strictly from 1 on: none is 0 or used twice.
pub ids-Rising : (es : List Event) → length es + 1 < 2 ^ 32 → Rising 0 (ids es init)
unfolding init
ids-Rising es h = ids-Rising_from es init 0 (omega arith) (omega arith)

-- A token of bytes that recovered the lease is refused when it comes at once again, whoever brings
-- it, unless the random source repeated it; and the recovery put a new attach id in place.
try_recover_once :
    (now now' : ℕ) (fresh fresh' peer peer' token : List ℕ) (a b : LeaseAuthority)
    → All IsByte token
    → All IsByte fresh
    → token ≢ fresh
    → try_recover now fresh peer token a ≡ (b, ok)
    → (try_recover now' fresh' peer' token b ≡ (b, not_permitted))
      × (b.s.attach_id ≡ a.next_attach_id)
unfolding try_recover
try_recover_once now now' fresh fresh' peer peer' token a b ht hf ne e =
    ground (arith, constant_time_equals_iff token fresh ht hf)
