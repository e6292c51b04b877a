-- ===== src/Base.antt =====
-- The names that the other modules share: the libraries', passed on, and those of the children.
mod Tests
mod Lists
mod Order
mod Maps
mod Ints
mod Entries
mod Texts
pub mod Bits
pub use Tests.*
pub use Lists.*
pub use Ints.{ℤ, pos, negsuc, add_nat, sub_nat, is_positive}
unfoldable pub use Order.{lt_wf}
unfoldable pub use Maps.{lookup, insert}
pub use Maps.{lookup-insert}
unfoldable pub use Entries.{put, erase, IsAbove, IsAscending}
pub use Entries.{
  lookup-put, lookup-IsAbove, put-IsAscending, erase-IsAscending, lookup-erase, lookup-erase_self,
  sum_of-put, sum_of-put_le, sum_of-put_self, sum_of-erase,
}
pub use Texts.{String, codes}
pub use Prim.Native.Nat.{ℕ, zero, suc, ◌+◌, ◌-◌, ◌*◌, ◌/◌, ◌%◌, ◌^◌, ◌≤◌, ◌<◌, min, bit_and, bit_or}
pub use mathlib.Core.Path.{◌≡◌, refl, sym, ap, ◌∙◌, subst}
pub use mathlib.Core.Logic.{◌≢◌, ◌↔◌, ◌⊎◌, inl, inr}
pub use mathlib.Core.Bool.{Bool, true, false, not, ◌&&◌, ◌||◌}
pub use mathlib.Core.Option.{Option, none, some}
pub use mathlib.Core.List.{List, [], ◌∷◌, ◌++◌, map, append-nil, append_assoc}
pub use native.Mathlib.Omega.{arith}
