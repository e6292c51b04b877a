-- ===== src/Crypto/Examples.antt =====
-- The comparison at two concrete tokens.
use airusb_hub.Base.{◌≡◌, ◌↔◌, ℕ, true, List, [], ◌∷◌, arith}
use airusb_hub.Crypto.{constant_time_equals, constant_time_equals_iff}

constant_time_equals_iff_example :
    (constant_time_equals (1 ∷ 255 ∷ []) (1 ∷ 254 ∷ []) ≡ true)
    ↔ (◌≡◌ {A = List ℕ} (1 ∷ 255 ∷ []) (1 ∷ 254 ∷ []))
constant_time_equals_iff_example =
    constant_time_equals_iff (1 ∷ 255 ∷ []) (1 ∷ 254 ∷ []) (omega arith) (omega arith)
