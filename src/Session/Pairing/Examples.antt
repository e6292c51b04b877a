-- ===== src/Session/Pairing/Examples.antt =====
-- The theorems of the pairing gate at concrete inputs.
use airusb_hub.Base.{◌+◌, ◌-◌, ◌*◌, ◌≤◌, ◌≡◌, refl, true, min, ◌^◌, arith}
use airusb_hub.Session.Pairing.{
  default_limits, PairingLimits, PairingGate, lockout_ms_for, may_attempt, record_failure, ms_to_ns,
}
use airusb_hub.Session.Pairing.Backoff.{lockout_ms_for_eq}
use airusb_hub.Session.Pairing.Guesses.{Guesses, IsCapped, none_yet, guess, Guesses-take_long}

lockout_ms_for_eq_example :
    lockout_ms_for default_limits (3 + (9 + 1)) ≡ min 3_600_000 (30_000 * 2 ^ 9)
lockout_ms_for_eq_example = lockout_ms_for_eq default_limits 9 (omega arith)

default_IsCapped : IsCapped default_limits 7
default_IsCapped = record {
  cap_reached = omega arith;
  cap_fits = omega arith;
  decay_fits = omega arith;
  decay_slow = omega arith;
  cap_pos = omega arith;
  streak_fits = omega arith;
}

abbrev short_limits : PairingLimits
short_limits = record {
  free_attempts = 0;
  base_lockout_ms = 2;
  max_lockout_ms = 2;
  decay_after_ms = 5;
}

short_IsCapped : IsCapped short_limits 0
short_IsCapped = record {
  cap_reached = omega arith;
  cap_fits = omega arith;
  decay_fits = omega arith;
  decay_slow = omega arith;
  cap_pos = omega arith;
  streak_fits = omega arith;
}

abbrev one_failure : PairingGate
one_failure = record {
  limits = short_limits;
  failures = 1;
  last_failure_ns = 9;
  ever_failed = true;
}

abbrev two_failures : PairingGate
two_failures = record one_failure { failures = 2; last_failure_ns = 2_000_011 }

guessed_once : Guesses short_limits 1 one_failure
unfolding record_failure may_attempt
guessed_once = guess none_yet 5 9 (omega arith) (omega arith) refl

guessed_twice : Guesses short_limits 2 two_failures
unfolding record_failure may_attempt lockout_ms_for
guessed_twice = guess guessed_once 2_000_009 2_000_011 (omega arith) (omega arith) refl

Guesses-take_long_example : (2 - (0 + (0 + 1))) * (2 * ms_to_ns) ≤ 2_000_011
Guesses-take_long_example =
    Guesses-take_long short_limits 0 2 two_failures short_IsCapped guessed_twice
