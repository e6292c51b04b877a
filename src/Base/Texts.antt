-- ===== src/Base/Texts.antt =====
-- The sentences for people, which are ASCII: their bytes are their code points.
use Prim.Native.Nat.{ℕ}
use Prim.Native.Char.{code}
pub use Prim.Native.String.{String}
use mathlib.Core.List.{List, [], ◌∷◌}

abbrev pub codes : String → List ℕ
codes String.[] = []
codes (String.◌∷◌ c s) = code c ∷ codes s
