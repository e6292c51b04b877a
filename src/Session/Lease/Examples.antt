-- ===== src/Session/Lease/Examples.antt =====
-- The theorems of the lease authority at concrete inputs.
use airusb_hub.Base.{ℕ, ◌≡◌, ◌≢◌, refl, List, [], ◌∷◌, arith, replicate}
use airusb_hub.Core.Status.{ok}
use airusb_hub.Crypto.{constant_time_equals}
use airusb_hub.Session.Lease.{LeaseAuthority, init, grant, may_claim, try_recover, is_owner}
use airusb_hub.Session.Lease.Custody.{claims, drops, releases, run, IsHeld, run-IsHeld}
use airusb_hub.Session.Lease.Tokens.{ids, Rising, ids-Rising}

abbrev alice : List ℕ
alice = replicate 32 1

abbrev mallory : List ℕ
mallory = replicate 32 2

abbrev drive : List ℕ
drive = replicate 16 9

abbrev first_token : List ℕ
first_token = replicate 16 3

abbrev second_token : List ℕ
second_token = replicate 16 4

abbrev held : LeaseAuthority
held = (grant 100 first_token alice drive init).0

held_by_alice : IsHeld alice drive held
unfolding grant init
held_by_alice = record { taken = λ e. cc; owned = refl; holder = refl; device = refl }

run-IsHeld_example :
    let es = drops 200 ∷ claims 300 second_token mallory drive ∷ releases 400 mallory ∷ [] in
    IsHeld alice drive (run es held) × (may_claim mallory drive (run es held) ≢ ok)
unfolding constant_time_equals
run-IsHeld_example =
    run-IsHeld alice drive mallory drive
      (drops 200 ∷ claims 300 second_token mallory drive ∷ releases 400 mallory ∷ []) held
      (tt, (tt, (refl, tt))) held_by_alice

ids-Rising_example : Rising 0 (ids (claims 1 first_token alice drive ∷ releases 2 alice ∷ []) init)
ids-Rising_example =
    ids-Rising (claims 1 first_token alice drive ∷ releases 2 alice ∷ []) (omega arith)

abbrev recovered : LeaseAuthority
recovered = (try_recover 500 second_token alice first_token held).0

recovers_once : try_recover 500 second_token alice first_token held ≡ (recovered, ok)
unfolding try_recover grant init is_owner constant_time_equals
recovers_once = refl
