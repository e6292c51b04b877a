-- ===== src/Session/Lease/Custody.antt =====
-- A held device stays with its holder.
use airusb_hub.Base.{ℕ, ◌≡◌, ◌≢◌, true, false, List, [], ◌∷◌, arith, All, if◌then◌else◌}
use airusb_hub.Core.Status.{Status, ok}
use airusb_hub.Crypto.{constant_time_equals}
use airusb_hub.Session.Lease.{
  free, LeaseAuthority, is_owner, may_claim, grant, heard, quarantine, force_reclaim, release,
  try_recover, silence_expired,
}

-- What sessions, the timer and the person at the machine do. A session grants only what
-- `may_claim` allows, and the sweep quarantines only a lease whose silence has expired.
pub data Event : Type 0 where
  claims : (now : ℕ) (fresh peer uid : List ℕ) → Event
  hears : (now : ℕ) (peer : List ℕ) → Event
  drops : (now : ℕ) → Event
  sweeps : (now : ℕ) → Event
  releases : (now : ℕ) (peer : List ℕ) → Event
  reclaims : (now : ℕ) → Event
  recovers : (now : ℕ) (fresh peer token : List ℕ) → Event

abbrev granted : ℕ → List ℕ → List ℕ → List ℕ → LeaseAuthority → Status → LeaseAuthority
granted now fresh peer uid a ok = (grant now fresh peer uid a).0
granted now fresh peer uid a other = a

unfoldable pub step : Event → LeaseAuthority → LeaseAuthority
step (claims now fresh peer uid) a = granted now fresh peer uid a (may_claim peer uid a)
step (hears now peer) a = heard now peer a
step (drops now) a = quarantine now a
step (sweeps now) a = if silence_expired now a then quarantine now a else a
step (releases now peer) a = release now peer a
step (reclaims now) a = force_reclaim now a
step (recovers now fresh peer token) a = (try_recover now fresh peer token a).0

unfoldable pub run : List Event → LeaseAuthority → LeaseAuthority
run [] a = a
run (e ∷ es) a = run es (step e a)

pub record IsHeld (owner uid : List ℕ) (a : LeaseAuthority) : Type 0 where
  pub taken : a.s.state ≢ free
  pub owned : a.s.has_owner ≡ true
  pub holder : a.s.owner ≡ owner
  pub device : a.s.uid ≡ uid

-- Neither the person at the machine nor the holder gives the device up.
abbrev pub Spares : List ℕ → Event → Type 0
Spares owner (claims now fresh peer uid) = Unit {0}
Spares owner (hears now peer) = Unit {0}
Spares owner (drops now) = Unit {0}
Spares owner (sweeps now) = Unit {0}
Spares owner (releases now peer) = constant_time_equals owner peer ≡ false
Spares owner (reclaims now) = ⊥
Spares owner (recovers now fresh peer token) = Unit {0}

step-IsHeld :
    (owner uid : List ℕ) (e : Event) (a : LeaseAuthority)
    → Spares owner e
    → IsHeld owner uid a
    → IsHeld owner uid (step e a)
unfolding step heard quarantine release force_reclaim try_recover grant may_claim is_owner
step-IsHeld owner uid (claims now fresh peer u) a h v = ground arith
step-IsHeld owner uid (hears now peer) a h v = ground arith
step-IsHeld owner uid (drops now) a h v = ground arith
step-IsHeld owner uid (sweeps now) a h v = ground arith
step-IsHeld owner uid (releases now peer) a h v = ground arith
step-IsHeld owner uid (reclaims now) a h v = absurd h
step-IsHeld owner uid (recovers now fresh peer token) a h v = ground arith

-- However long the holder is silent and whoever claims, releases or recovers: over any history in
-- which no peer with the holder's key releases the device and it is not reclaimed by force, a
-- device that is held stays with its holder, and nobody, the holder included, may claim any device.
pub run-IsHeld :
    (owner uid peer wanted : List ℕ) (es : List Event) (a : LeaseAuthority)
    → All (Spares owner) es
    → IsHeld owner uid a
    → IsHeld owner uid (run es a) × (may_claim peer wanted (run es a) ≢ ok)
unfolding run may_claim
run-IsHeld owner uid peer wanted [] a h v = (v, ground arith)
run-IsHeld owner uid peer wanted (e ∷ es) a h v =
    run-IsHeld owner uid peer wanted es (step e a) h.1 (step-IsHeld owner uid e a h.0 v)
