-- ===== src/Prelude.antt =====
-- The names that the other modules share: the libraries', passed on, and those of seven children.
mod Tests
mod Equality
mod Lists
mod Dicts
mod Outcomes
mod Checks
mod Fields
pub mod Texts
pub mod TextOrder
pub use Tests.*
pub use Equality.*
pub use Dicts.*
pub use Lists.*
pub use Outcomes.*
pub use Checks.*
pub use Fields.*
pub use Prim.Native.Nat.{ℕ, zero, suc, ◌+◌, ◌-◌, ◌*◌, ◌≤◌, ◌<◌}
pub use Prim.Native.String.{String}
pub use mathlib.Core.Path.{◌≡◌, refl, sym, ap, ◌∙◌, subst}
pub use mathlib.Core.Logic.{◌≢◌, ◌↔◌, ◌⊎◌, inl, inr}
pub use mathlib.Core.Bool.{Bool, true, false, not, ◌&&◌, ◌||◌}
pub use mathlib.Core.Option.{Option, none, some, some-injective}
pub use mathlib.Core.List.{List, [], ◌∷◌, ◌++◌, map, Memᴰ}
pub use native.Mathlib.Omega.{arith}
