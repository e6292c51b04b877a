-- ===== src/Session/Pairing/Guesses.antt =====
-- How fast wrong answers can be given to airusb/session/PairingGate, as `PairingGate.h` argues.
use airusb_hub.Base.{
  ℕ, zero, suc, ◌+◌, ◌∙◌, subst, ◌-◌, ◌*◌, ◌^◌, ◌≤◌, ◌<◌, ◌≡◌, refl, min, true, false, arith, ◌⊎◌,
  inl, inr, ap, sym,
}
use airusb_hub.Core.Status.{ok}
use airusb_hub.Session.Pairing.{
  PairingLimits, PairingGate, may_attempt, record_failure, lockout_ms_for, decayed, ms_to_ns,
}
use airusb_hub.Session.Pairing.Backoff.{lockout_ms_for_eq}
use native.Mathlib.Nat.{mul-le-mul_right, mul-sub, mul_comm, pow-suc}

abbrev pub fresh_gate : PairingLimits → PairingGate
fresh_gate l = record { limits = l; failures = 0; last_failure_ns = 0; ever_failed = false }

-- The gates reached by guessing: each guess is admitted at `start` and its failure recorded at
-- `end`, on a clock that does not go back.
pub data Guesses (l : PairingLimits) : ℕ → PairingGate → Type 0 where
  none_yet : Guesses l 0 (fresh_gate l)
  guess :
      {n : ℕ} {g : PairingGate}
      → Guesses l n g
      → (start end : ℕ) → g.last_failure_ns ≤ start
      → start ≤ end
      → (may_attempt start g).0 ≡ ok
      → Guesses l (n + 1) (record_failure end g)

-- The cap is reached after `k` doublings, and a streak that long waited for less than it takes to
-- decay.
pub record IsCapped (l : PairingLimits) (k : ℕ) : Type 0 where
  pub cap_reached : l.max_lockout_ms ≤ l.base_lockout_ms * 2 ^ k
  pub cap_fits : l.max_lockout_ms * ms_to_ns < 2 ^ 64
  pub decay_fits : l.decay_after_ms * ms_to_ns < 2 ^ 64
  pub decay_slow : (l.free_attempts + (k + 1)) * l.max_lockout_ms ≤ l.decay_after_ms
  pub cap_pos : 0 < l.max_lockout_ms
  pub streak_fits : l.free_attempts + (k + 1) < 2 ^ 32

abbrev cap_ns : PairingLimits → ℕ
cap_ns l = l.max_lockout_ms * ms_to_ns

grown_more : (b k m : ℕ) → b * 2 ^ k ≤ b * 2 ^ (k + m)
grown_more b k zero = grind arith
grown_more b k (suc m) =
    let twice : b * (2 ^ (k + m) * 2) ≡ b * 2 ^ (k + m) * 2 = grind arith in
    let exponent : k + suc m ≡ suc (k + m) = omega arith in
    let next : 2 ^ (k + suc m) ≡ 2 ^ (k + m) * 2 =
      ap (λ (t : ℕ). 2 ^ t) exponent ∙ pow-suc 2 (k + m) in
    omega (arith, twice, grown_more b k m, ap (λ (t : ℕ). b * t) next)

capped_from :
    (l : PairingLimits) (k m : ℕ)
    → IsCapped l k
    → lockout_ms_for l (l.free_attempts + (k + m + 1)) ≡ l.max_lockout_ms
capped_from l k m h = ground (
  arith,
  lockout_ms_for_eq l (k + m) (omega (arith, h.cap_fits)),
  grown_more l.base_lockout_ms k m,
  h.cap_reached,
)

-- The streak, as far as it counts.
abbrev deep : PairingLimits → ℕ → PairingGate → ℕ
deep l k g = min g.failures (l.free_attempts + (k + 1))

-- `n` guesses have cost this long, but for the current streak's.
record IsPaid (l : PairingLimits) (k n : ℕ) (g : PairingGate) : Type 0 where
  same_limits : g.limits ≡ l
  flagged : g.failures ≡ 0 ⊎ (g.ever_failed ≡ true)
  paid : n * cap_ns l ≤ g.last_failure_ns + deep l k g * cap_ns l

-- A guess that is admitted late in a streak that has not decayed came a whole cap after the failure
-- before it.
late_guess :
    (l : PairingLimits) (k start : ℕ) (g : PairingGate)
    → IsCapped l k
    → g.limits ≡ l
    → g.ever_failed ≡ true
    → l.free_attempts + (k + 1) ≤ g.failures
    → g.last_failure_ns ≤ start
    → decayed start g ≡ false
    → (may_attempt start g).0 ≡ ok
    → g.last_failure_ns + cap_ns l ≤ start
unfolding may_attempt
late_guess l k start g h el ev late le fresh e =
    let m : ℕ = g.failures - (l.free_attempts + (k + 1)) in
    let at : l.free_attempts + (k + m + 1) ≡ g.failures = omega arith in
    ground (arith, capped_from l k m h, ap (lockout_ms_for l) at, h.cap_pos, h.cap_fits)

decay_pays :
    (l : PairingLimits) (k d : ℕ)
    → IsCapped l k
    → d ≤ l.free_attempts + (k + 1)
    → d * cap_ns l ≤ l.decay_after_ms * ms_to_ns
decay_pays l k d h le =
    let most : d * l.max_lockout_ms ≤ (l.free_attempts + (k + 1)) * l.max_lockout_ms =
      mul-le-mul_right l.max_lockout_ms le in
    omega (arith, h.decay_slow)

-- The failure starts a streak after a decay, or adds to the one there is, up to the 32-bit end.
streak_cases :
    (end : ℕ) (g : PairingGate)
    → g.limits.decay_after_ms * ms_to_ns < 2 ^ 64
    → g.last_failure_ns ≤ end
    → ((g.last_failure_ns + g.limits.decay_after_ms * ms_to_ns ≤ end)
        × ((record_failure end g).failures ≡ 1))
      ⊎ (((g.ever_failed ≡ false) ⊎ (decayed end g ≡ false))
          × (((record_failure end g).failures ≡ g.failures + 1)
              ⊎ ((g.failures ≡ 0xFFFF_FFFF) × ((record_failure end g).failures ≡ g.failures))))
unfolding record_failure
streak_cases end g fits le = ground arith

not_before :
    (start end : ℕ) (g : PairingGate)
    → start ≤ end
    → decayed end g ≡ false
    → decayed start g ≡ false
not_before start end g le e = ground arith

paid_on :
    (n cap last end d d' : ℕ)
    → n * cap ≤ last + d * cap
    → ((last + d * cap ≤ end) × (0 < d'))
      ⊎ (((last ≤ end) × (d + 1 ≤ d')) ⊎ ((last + cap ≤ end) × (d ≤ d')))
    → (n + 1) * cap ≤ end + d' * cap
paid_on n cap last end d d' h (inl (pause, pos)) = omega (arith, h, pause, mul-le-mul_right cap pos)
paid_on n cap last end d d' h (inr (inl (on, more))) =
    omega (arith, h, on, mul-le-mul_right cap more)
paid_on n cap last end d d' h (inr (inr (wait, same))) =
    omega (arith, h, wait, mul-le-mul_right cap same)

record_failure_limits : (end : ℕ) (g : PairingGate) → (record_failure end g).limits ≡ g.limits
unfolding record_failure
record_failure_limits end g = refl

record_failure_flag : (end : ℕ) (g : PairingGate) → (record_failure end g).ever_failed ≡ true
unfolding record_failure
record_failure_flag end g = refl

ways :
    (l : PairingLimits) (k n start end : ℕ) (g : PairingGate)
    → IsCapped l k
    → IsPaid l k n g
    → g.last_failure_ns ≤ start
    → start ≤ end
    → (may_attempt start g).0 ≡ ok
    → ((g.last_failure_ns + deep l k g * cap_ns l ≤ end) × (0 < deep l k (record_failure end g)))
      ⊎ (((g.last_failure_ns ≤ end) × (deep l k g + 1 ≤ deep l k (record_failure end g)))
          ⊎ ((g.last_failure_ns + cap_ns l ≤ end) × (deep l k g ≤ deep l k (record_failure end g))))
ways l k n start end g h p le le2 e =
    let el = p.same_limits in
    let fits : g.limits.decay_after_ms * ms_to_ns < 2 ^ 64 =
      subst (λ (x : PairingLimits). x.decay_after_ms * ms_to_ns < 2 ^ 64) (sym el) h.decay_fits in
    let pauses : deep l k g * cap_ns l ≤ g.limits.decay_after_ms * ms_to_ns =
      subst (λ (x : PairingLimits). deep l k g * cap_ns l ≤ x.decay_after_ms * ms_to_ns) (sym el)
        (decay_pays l k (deep l k g) h (omega arith)) in
    ground (
      arith,
      streak_cases end g fits (omega arith),
      pauses,
      p.flagged,
      h.streak_fits,
      not_before start end g le2,
      late_guess l k start g h el,
    )

guess-IsPaid :
    (l : PairingLimits) (k n start end : ℕ) (g : PairingGate)
    → IsCapped l k
    → IsPaid l k n g
    → g.last_failure_ns ≤ start
    → start ≤ end
    → (may_attempt start g).0 ≡ ok
    → IsPaid l k (n + 1) (record_failure end g)
unfolding record_failure
guess-IsPaid l k n start end g h p le le2 e = record {
  same_limits = record_failure_limits end g ∙ p.same_limits;
  flagged = inr (record_failure_flag end g);
  paid =
      paid_on n (cap_ns l) g.last_failure_ns end (deep l k g) (deep l k (record_failure end g))
        p.paid (ways l k n start end g h p le le2 e);
}

Guesses-IsPaid :
    (l : PairingLimits) (k : ℕ) {n : ℕ} {g : PairingGate}
    → IsCapped l k
    → Guesses l n g
    → IsPaid l k n g
Guesses-IsPaid l k h none_yet = record {
  same_limits = refl;
  flagged = inl refl;
  paid = omega arith;
}
Guesses-IsPaid l k h (guess {n} {g} gs start end le le2 e) =
    guess-IsPaid l k n start end g h (Guesses-IsPaid l k h gs) le le2 e

-- Wrong guesses are rate limited: where `k` doublings reach the cap, a streak of
-- `free_attempts + k + 1` caps is no longer than the decay, and the products fit their widths,
-- `n` guesses from a fresh gate, each admitted and each recorded as a failure, on a clock that does
-- not go back, take at least the cap for each guess but the first `free_attempts + k + 1`, however
-- the guesser times them and whatever decays in between.
pub Guesses-take_long :
    (l : PairingLimits) (k n : ℕ) (g : PairingGate)
    → IsCapped l k
    → Guesses l n g
    → (n - (l.free_attempts + (k + 1))) * (l.max_lockout_ms * ms_to_ns) ≤ g.last_failure_ns
Guesses-take_long l k n g h gs =
    let p = Guesses-IsPaid l k h gs in
    let most : deep l k g * cap_ns l ≤ (l.free_attempts + (k + 1)) * cap_ns l =
      mul-le-mul_right (cap_ns l) (omega arith) in
    ground (
      arith,
      p.paid,
      most,
      mul_comm (n - (l.free_attempts + (k + 1))) (cap_ns l),
      mul-sub (cap_ns l) n (l.free_attempts + (k + 1)),
      mul_comm (cap_ns l) n,
      mul_comm (cap_ns l) (l.free_attempts + (k + 1)),
    )
