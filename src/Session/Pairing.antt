-- ===== src/Session/Pairing.antt =====
-- airusb/session/PairingGate: how many times a stranger may guess at the six digits.
--
-- The reading of the continuous clock is an argument. The text form is not modelled.
pub mod Backoff
pub mod Guesses
mod Examples
use airusb_hub.Base.{
  ℕ, zero, suc, ◌+◌, ◌-◌, ◌*◌, ◌/◌, ◌%◌, ◌^◌, Bool, true, false, ◌&&◌, ◌||◌, not, ltb, leb, ◌==◌,
  if◌then◌else◌,
}
use airusb_hub.Core.Status.{Status, ok, busy}

pub record PairingLimits : Type 0 where
  pub free_attempts : ℕ
  pub base_lockout_ms : ℕ
  pub max_lockout_ms : ℕ
  pub decay_after_ms : ℕ

abbrev pub default_limits : PairingLimits
default_limits = record {
  free_attempts = 3;
  base_lockout_ms = 30_000;
  max_lockout_ms = 3_600_000;
  decay_after_ms = 86_400_000;
}

pub record PairingGate : Type 0 where
  pub limits : PairingLimits
  pub failures : ℕ
  pub last_failure_ns : ℕ
  pub ever_failed : Bool

abbrev pub ms_to_ns : ℕ
ms_to_ns = 1_000_000

-- `for (i = 1; i < over; ++i) { if (ms >= max) break; ms *= 2; }`, on the rounds left.
doubling : ℕ → ℕ → ℕ → ℕ
doubling zero max ms = ms
doubling (suc rounds) max ms =
    let rest = doubling rounds max (ms * 2 % 2 ^ 64) in if leb max ms then ms else rest

pub lockout_ms_for : PairingLimits → ℕ → ℕ
unfolding doubling
lockout_ms_for l failures =
    if leb failures l.free_attempts
    then 0
    else let ms = doubling (failures - l.free_attempts - 1) l.max_lockout_ms l.base_lockout_ms in
      if ltb l.max_lockout_ms ms then l.max_lockout_ms else ms

-- A clock that went backwards counts as no time having passed.
abbrev pub since_failure : ℕ → PairingGate → ℕ
since_failure now g = if leb g.last_failure_ns now then now - g.last_failure_ns else 0

abbrev pub decayed : ℕ → PairingGate → Bool
decayed now g =
    not (g.limits.decay_after_ms == 0)
    && leb (g.limits.decay_after_ms * ms_to_ns % 2 ^ 64) (since_failure now g)

-- The answer, and `retryAfterMs`.
pub may_attempt : ℕ → PairingGate → Status × ℕ
may_attempt now g =
    if not g.ever_failed || g.failures == 0
    then (ok, 0)
    else if decayed now g
    then (ok, 0)
    else let lock_ms = lockout_ms_for g.limits g.failures in
      if lock_ms == 0
      then (ok, 0)
      else let lock_ns = lock_ms * ms_to_ns % 2 ^ 64 in
        if leb lock_ns (since_failure now g)
        then (ok, 0)
        else (busy, (lock_ns - since_failure now g) / ms_to_ns + 1)

pub locked_out : ℕ → PairingGate → Bool
locked_out now g = elim (may_attempt now g).0 [ ok ↦ false | other ↦ true ]

pub record_failure : ℕ → PairingGate → PairingGate
record_failure now g =
    let streak = if g.ever_failed && decayed now g then 0 else g.failures in
    record g {
      failures = if streak == 0xFFFF_FFFF then streak else streak + 1;
      last_failure_ns = now;
      ever_failed = true;
    }

pub record_success : PairingGate → PairingGate
record_success g = record g { failures = 0; ever_failed = false }
