-- ===== src/Session/Lease.antt =====
-- airusb/session/LeaseAuthority: who owns the captured device, and for how long.
--
-- The continuous clock's reading and the fresh token of the random source are arguments of the
-- calls that use them. The sentences that `mayClaim` gives for people are left out.
pub mod Custody
pub mod Tokens
mod Examples
use airusb_hub.Base.{
  ℕ, ◌≡◌, refl, Bool-cases, inl, inr, ◌+◌, ◌-◌, ◌*◌, ◌%◌, ◌^◌, Bool, true, false, ◌&&◌, not, List,
  [], ltb, leb, if◌then◌else◌, replicate,
}
use airusb_hub.Core.Status.{Status, ok, busy, exclusivity_denied, not_found, not_permitted}
use airusb_hub.Crypto.{constant_time_equals}

pub data LeaseState : Type 0 where
  free leased quarantined : LeaseState

pub record Snapshot : Type 0 where
  pub state : LeaseState
  pub uid : List ℕ
  pub owner : List ℕ
  pub has_owner : Bool
  pub attach_id : ℕ
  pub lease_epoch : ℕ
  pub incarnation : ℕ
  pub last_heard_ns : ℕ
  pub since_ns : ℕ

pub record LeaseAuthority : Type 0 where
  pub s : Snapshot
  pub token : List ℕ
  pub next_attach_id : ℕ

abbrev pub no_snapshot : Snapshot
no_snapshot = record {
  state = free;
  uid = replicate 16 0;
  owner = replicate 32 0;
  has_owner = false;
  attach_id = 0;
  lease_epoch = 0;
  incarnation = 0;
  last_heard_ns = 0;
  since_ns = 0;
}

abbrev pub no_token : List ℕ
no_token = replicate 16 0

pub init : LeaseAuthority
init = record { s = no_snapshot; token = no_token; next_attach_id = 1 }

pub is_owner : List ℕ → LeaseAuthority → Bool
is_owner peer a = a.s.has_owner && constant_time_equals a.s.owner peer

claim_answer : LeaseState → Bool → Status
claim_answer free owner = ok
claim_answer leased owner = busy
claim_answer quarantined owner = exclusivity_denied

-- Whether the owner asks, and for which device, changes the sentence and not the status.
pub may_claim : List ℕ → List ℕ → LeaseAuthority → Status
unfolding claim_answer
may_claim peer uid a = claim_answer a.s.state (is_owner peer a)

-- The state, the attach id, the counters and the times of a lease that begins at `now`.
started : ℕ → List ℕ → LeaseAuthority → Snapshot → LeaseAuthority
started now fresh a s = record {
  s = record s {
    state = leased;
    attach_id = a.next_attach_id;
    lease_epoch = (s.lease_epoch + 1) % 2 ^ 32;
    incarnation = (s.incarnation + 1) % 2 ^ 16;
    last_heard_ns = now;
    since_ns = now;
  };
  token = fresh;
  next_attach_id = (a.next_attach_id + 1) % 2 ^ 32;
}

pub grant : ℕ → List ℕ → List ℕ → List ℕ → LeaseAuthority → LeaseAuthority × ℕ
unfolding started
grant now fresh peer uid a =
    let a' = started now fresh a (record a.s { owner = peer; has_owner = true; uid = uid }) in
    (a', a'.s.attach_id)

revived : ℕ → Snapshot → LeaseState → Snapshot
revived now s quarantined = record s { state = leased; since_ns = now; last_heard_ns = now }
revived now s other = record s { last_heard_ns = now }

unfoldable pub heard : ℕ → List ℕ → LeaseAuthority → LeaseAuthority
unfolding revived is_owner
heard now peer a = if is_owner peer a then record a { s = revived now a.s a.s.state } else a

revived-owner : (now : ℕ) (s : Snapshot) (st : LeaseState) → (revived now s st).owner ≡ s.owner
unfolding revived
revived-owner now s free = refl
revived-owner now s leased = refl
revived-owner now s quarantined = refl

-- Hearing from a peer makes nobody the owner.
pub heard-owner :
    (now : ℕ) (peer : List ℕ) (a : LeaseAuthority)
    → ((heard now peer a).s.owner ≡ a.s.owner)
      × ((heard now peer a).next_attach_id ≡ a.next_attach_id)
unfolding heard
heard-owner now peer a = elim (Bool-cases (is_owner peer a)) [
  | inl owner ↦ rw owner (revived-owner now a.s a.s.state, refl)
  | inr other ↦ rw other (refl, refl)
]

quarantined_from : ℕ → Snapshot → LeaseState → Snapshot
quarantined_from now s leased = record s { state = quarantined; since_ns = now }
quarantined_from now s other = s

pub quarantine : ℕ → LeaseAuthority → LeaseAuthority
unfolding quarantined_from
quarantine now a = record a { s = quarantined_from now a.s a.s.state }

pub force_reclaim : ℕ → LeaseAuthority → LeaseAuthority
force_reclaim now a = record a { s = record no_snapshot { since_ns = now }; token = no_token }

pub release : ℕ → List ℕ → LeaseAuthority → LeaseAuthority
release now peer a =
    if is_owner peer a
    then record a { s = record no_snapshot { since_ns = now }; token = no_token }
    else a

is_free : LeaseState → Bool
is_free free = true
is_free other = false

pub try_recover : ℕ → List ℕ → List ℕ → List ℕ → LeaseAuthority → LeaseAuthority × Status
unfolding is_free started
try_recover now fresh peer token a =
    if is_free a.s.state
    then (a, not_found)
    else if not (is_owner peer a)
    then (a, not_permitted)
    else if not (constant_time_equals token a.token)
    then (a, not_permitted)
    else (started now fresh a a.s, ok)

-- watchdog::kLeaseExporter, in milliseconds.
abbrev pub lease_exporter_ms : ℕ
lease_exporter_ms = 20_000

silent : ℕ → Snapshot → LeaseState → Bool
silent now s leased =
    if ltb now s.last_heard_ns
    then false
    else leb (lease_exporter_ms * 1_000_000) (now - s.last_heard_ns)
silent now s other = false

unfoldable pub silence_expired : ℕ → LeaseAuthority → Bool
unfolding silent
silence_expired now a = silent now a.s a.s.state
