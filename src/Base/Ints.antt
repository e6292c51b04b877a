-- ===== src/Base/Ints.antt =====
-- Integers over the native naturals, as far as the components count below zero.
use Prim.Native.Nat.{ℕ, ◌+◌, ◌-◌}
use mathlib.Core.Bool.{Bool, false}
use airusb_hub.Base.Tests.{ltb, if◌then◌else◌}

-- `negsuc n` is `- (n + 1)`.
pub data ℤ : Type 0 where
  pos : ℕ → ℤ
  negsuc : ℕ → ℤ

abbrev pub add_nat : ℤ → ℕ → ℤ
add_nat (pos a) n = pos (a + n)
add_nat (negsuc a) n = if ltb a n then pos (n - (a + 1)) else negsuc (a - n)

abbrev pub sub_nat : ℤ → ℕ → ℤ
sub_nat (pos a) n = if ltb a n then negsuc (n - a - 1) else pos (a - n)
sub_nat (negsuc a) n = negsuc (a + n)

abbrev pub is_positive : ℤ → Bool
is_positive (pos a) = ltb 0 a
is_positive (negsuc a) = false
