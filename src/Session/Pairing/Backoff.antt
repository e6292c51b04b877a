-- ===== src/Session/Pairing/Backoff.antt =====
-- The lockout doubles up to its cap.
use airusb_hub.Base.{
  ℕ, zero, suc, ◌+◌, ◌-◌, ◌*◌, ◌%◌, ◌^◌, ◌≤◌, ◌≡◌, min, arith, ltb, ap, true, ltb→lt,
}
use airusb_hub.Session.Pairing.{PairingLimits, lockout_ms_for, doubling}
use native.Mathlib.Nat.{pow-suc, one-le-pow}

times_two : (ms rounds : ℕ) → ms * 2 * 2 ^ rounds ≡ ms * 2 ^ suc rounds
times_two ms rounds = omega (arith, ap (λ (t : ℕ). ms * t) (pow-suc 2 rounds))

grown : (ms rounds : ℕ) → ms ≤ ms * 2 ^ rounds
grown ms rounds = grind (arith, one-le-pow rounds 2)

capped_doubling :
    (rounds max ms : ℕ)
    → max ≤ 2 ^ 63
    → min max (doubling rounds max ms) ≡ min max (ms * 2 ^ rounds)
unfolding doubling
capped_doubling zero max ms h = omega arith
capped_doubling (suc rounds) max ms h =
    let whole : ltb ms max ≡ true → ms * 2 % 2 ^ 64 ≡ ms * 2 =
      λ e. omega (arith, ltb→lt ms max e) in
    ground (
      arith,
      grown ms (suc rounds),
      times_two ms rounds,
      whole,
      capped_doubling rounds max (ms * 2) h,
    )

-- After `k + 1` failures over the free ones the lockout is the base doubled `k` times, or the cap
-- where that is less; the 64-bit product does not wrap on the way, the cap being below 2 ^ 63.
pub lockout_ms_for_eq :
    (l : PairingLimits) (k : ℕ)
    → l.max_lockout_ms ≤ 2 ^ 63
    → lockout_ms_for l (l.free_attempts + (k + 1))
      ≡ min l.max_lockout_ms (l.base_lockout_ms * 2 ^ k)
unfolding lockout_ms_for
lockout_ms_for_eq l k h =
    let over : l.free_attempts + (k + 1) - l.free_attempts - 1 ≡ k = omega arith in
    rw over (ground (arith, capped_doubling k l.max_lockout_ms l.base_lockout_ms h))
