-- ===== src/Base.antt =====
-- The names that the other modules share: the libraries', passed on, and those of the children:
-- Boolean tests, lists over the native numbers, texts, insertion-ordered maps and decimal numerals.
mod Tests
mod Outcomes
mod Lists
mod Texts
mod Maps
mod MapLaws
mod Decimals
mod Integers
pub use Tests.*
pub use Outcomes.*
pub use Lists.*
unfoldable pub use Texts.*
unfoldable pub use Maps.*
pub use MapLaws.*
pub use Decimals.*
unfoldable pub use Integers.*
pub use Prim.Native.Nat.{ℕ, zero, suc, ◌+◌, ◌-◌, ◌*◌, ◌/◌, ◌%◌, ◌^◌, ◌≤◌, ◌<◌}
pub use Prim.Native.String.{String}
pub use mathlib.Core.Path.{◌≡◌, refl, sym, ap, ◌∙◌}
pub use mathlib.Core.Logic.{◌≢◌, ◌↔◌, ◌⊎◌, inl, inr}
pub use mathlib.Core.Bool.{Bool, true, false, not, ◌&&◌, ◌||◌}
pub use mathlib.Core.Option.{Option, none, some}
pub use mathlib.Core.List.{List, [], ◌∷◌, ◌++◌, map}
pub use native.Mathlib.Omega.{arith}
