-- ===== src/Common.antt =====
-- The names that the other modules share: the library names in use, and those of the children.
mod Tests
mod Lists
mod Integers
mod Texts
mod Dicts
mod Outcomes
mod Sorting
mod Decimals
mod Lines
mod Grouped
mod Printed
mod Permutations
pub mod Options
pub use Tests.*
unfoldable pub use Lists.*
pub use Integers.*
unfoldable pub use Texts.*
unfoldable pub use Dicts.*
pub use Outcomes.*
unfoldable pub use Sorting.*
unfoldable pub use Grouped.*
unfoldable pub use Printed.*
unfoldable pub use Lines.*
unfoldable pub use Decimals.*
pub use Permutations.*
pub use Prim.Native.Nat.{ℕ, zero, suc, ◌+◌, ◌-◌, ◌*◌, ◌/◌, ◌%◌, ◌≤◌, ◌<◌, min, max}
pub use mathlib.Core.Path.{◌≡◌, refl, sym, ap, ◌∙◌, subst}
pub use mathlib.Core.Logic.{◌≢◌, ◌↔◌, ◌⊎◌, inl, inr}
pub use mathlib.Core.Bool.{Bool, true, false, not, ◌&&◌, ◌||◌}
pub use mathlib.Core.Option.{Option, none, some}
pub use mathlib.Core.List.{List, [], ◌∷◌, ◌++◌, map, reverse}
pub use native.Mathlib.Omega.{arith}
