-- ===== src/Core/Credit/Ledger.antt =====
-- The controller against a ledger of the byte counts that are outstanding.
use airusb_hub.Base.{
  ℕ, ◌+◌, ◌*◌, ◌^◌, ◌≤◌, ◌<◌, ◌≡◌, ◌↔◌, List, [], ◌∷◌, ◌++◌, true, arith, length, sum_of,
  sum_of-append, length-append, IsU32, any_of, ltb, leb, ◌||◌, ◌%◌,
}
use airusb_hub.Core.Status.{ok, no_resources}
use airusb_hub.Core.Credit.{
  CreditController, CreditGrant, init, acquire, release, record_overrun, overrun_is_fatal,
}

abbrev pub total : List ℕ → ℕ
total = sum_of (λ n. n)

abbrev pub IsGrant : CreditGrant → Type 0
IsGrant g = IsU32 g.urbs × IsU32 g.bytes

-- The two counters are the size and the sum of the ledger, and stay within the grant.
pub record IsSound (c : CreditController) (out : List ℕ) : Type 0 where
  pub granted : IsGrant c.grant
  pub urbs_counted : c.urbs_in_use ≡ length out
  pub bytes_counted : c.bytes_in_use ≡ total out
  pub urbs_within : c.urbs_in_use ≤ c.grant.urbs
  pub bytes_within : c.bytes_in_use ≤ c.grant.bytes

-- One call on the controller, and what it does to the ledger. A release names a byte count that is
-- outstanding, as the header demands of its callers.
pub data Step (c : CreditController) (out : List ℕ) (d : CreditController) (out' : List ℕ)
    : Type 0 where
  acquired : (n : ℕ) → IsU32 n → acquire n c ≡ (d, ok) → out' ≡ n ∷ out → Step c out d out'
  refused : (n : ℕ) → IsU32 n → acquire n c ≡ (d, no_resources) → out' ≡ out → Step c out d out'
  released :
      (front back : List ℕ) (n : ℕ)
      → out ≡ front ++ (n ∷ back)
      → (release n c).0 ≡ d
      → out' ≡ front ++ back
      → Step c out d out'
  overran : (n : ℕ) → IsU32 n → record_overrun n c ≡ d → out' ≡ out → Step c out d out'

pub data Reach (c : CreditController) (out : List ℕ) : CreditController → List ℕ → Type 0 where
  here : Reach c out c out
  next :
      {d e : CreditController} {ds es : List ℕ}
      → Reach c out d ds
      → Step d ds e es
      → Reach c out e es

acquire-IsSound :
    (n : ℕ) (c : CreditController) (out : List ℕ) (d : CreditController)
    → IsU32 n
    → IsSound c out
    → acquire n c ≡ (d, ok)
    → IsSound d (n ∷ out)
unfolding acquire
acquire-IsSound n c out d hn v e = ground arith

refuse-IsSound :
    (n : ℕ) (c : CreditController) (out : List ℕ) (d : CreditController)
    → IsSound c out
    → acquire n c ≡ (d, no_resources)
    → IsSound d out
unfolding acquire
refuse-IsSound n c out d v e = ground arith

total_split :
    (front back : List ℕ) (n : ℕ) → total (front ++ (n ∷ back)) ≡ n + total (front ++ back)
total_split front back n =
    omega (arith, sum_of-append (λ k. k) front (n ∷ back), sum_of-append (λ k. k) front back)

length_split :
    (front back : List ℕ) (n : ℕ) → length (front ++ (n ∷ back)) ≡ 1 + length (front ++ back)
length_split front back n = omega (arith, length-append front (n ∷ back), length-append front back)

-- Where the counters are sound, a release of a byte count that is outstanding succeeds, and they
-- are sound for what is left.
release-IsSound :
    (n : ℕ) (c : CreditController) (front back : List ℕ)
    → IsSound c (front ++ (n ∷ back))
    → ((release n c).1 ≡ true) × IsSound (release n c).0 (front ++ back)
unfolding release
release-IsSound n c front back v =
    ground (arith, total_split front back n, length_split front back n)

Step-IsSound :
    {c d : CreditController} {out out' : List ℕ}
    → Step c out d out'
    → IsSound c out
    → IsSound d out'
unfolding record_overrun
Step-IsSound {c} {d} {out} (acquired n hn e l) v = ground (arith, acquire-IsSound n c out d hn v e)
Step-IsSound {c} {d} {out} (refused n hn e l) v = ground (arith, refuse-IsSound n c out d v e)
Step-IsSound {c} (released front back n o e l) v = ground (arith, release-IsSound n c front back)
Step-IsSound (overran n hn e l) v = ground arith

-- From a fresh controller with a 32-bit grant, after any history of acquires, refusals, overruns
-- and releases of what is outstanding: the counters are the number and the sum of what is
-- outstanding, and within the grant.
pub Reach-IsSound :
    (g : CreditGrant) {c : CreditController} {out : List ℕ}
    → IsGrant g
    → Reach (init g) [] c out
    → IsSound c out
unfolding init
Reach-IsSound g h here = ground arith
Reach-IsSound g h (next r s) = Step-IsSound s (Reach-IsSound g h r)

-- Where the counters are sound, a request of 32-bit size is granted exactly when one more urb and
-- its bytes, with what is outstanding, fit the grant.
acquire_ok_iff :
    (n : ℕ) (c : CreditController) (out : List ℕ)
    → IsU32 n
    → IsSound c out
    → ((acquire n c).1 ≡ ok) ↔ ((length out < c.grant.urbs) × (total out + n ≤ c.grant.bytes))
unfolding acquire
acquire_ok_iff n c out hn v = ground arith

pub record_overruns : List ℕ → CreditController → CreditController
record_overruns [] c = c
record_overruns (n ∷ ns) c = record_overruns ns (record_overrun n c)

-- A run of overruns, on a controller whose urbs in use are within the doubled grant as 32 bits hold
-- it, and whose doubled byte grant and count of overruns fit their widths, ends the session exactly
-- if the mark was set before, a new request passes twice the byte grant, or there are three in all.
overrun_is_fatal-record_overruns :
    (ns : List ℕ) (c : CreditController)
    → 2 * c.grant.bytes < 2 ^ 64
    → c.urbs_in_use ≤ 2 * c.grant.urbs % 2 ^ 32
    → c.overruns + length ns < 2 ^ 32
    → overrun_is_fatal (record_overruns ns c) ≡ (
        c.gross_overrun
        || any_of (λ n. ltb (2 * c.grant.bytes) n) ns
        || leb 3 (c.overruns + length ns))
unfolding overrun_is_fatal record_overruns record_overrun
overrun_is_fatal-record_overruns [] c hb hu ho = ground arith
overrun_is_fatal-record_overruns (n ∷ ns) c hb hu ho =
    ground (arith, overrun_is_fatal-record_overruns ns (record_overrun n c))

-- `2u * urbs` wraps: with a grant of 2 ^ 31 urbs or more, one overrun of any size ends the session
-- as soon as the urbs in use, which may be within the grant, are more than twice the grant less 2 ^
-- 32.
pub record_overrun_wrapped :
    (n : ℕ) (c : CreditController)
    → 2 ^ 31 ≤ c.grant.urbs
    → IsU32 c.grant.urbs
    → 2 * c.grant.urbs < c.urbs_in_use + 2 ^ 32
    → overrun_is_fatal (record_overrun n c) ≡ true
unfolding overrun_is_fatal record_overrun
record_overrun_wrapped n c lo hi h = ground arith
