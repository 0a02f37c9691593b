-- ===== src/Common.antt =====
-- The names that every module shares: the libraries', passed on, and those of the children
-- (Boolean tests, lists over native numbers, equality tests, early returns, integers, byte strings,
-- maps).
mod Tests
mod Lists
mod Equality
mod Results
mod Int
mod Bytes
pub mod Map
pub use Tests.*
pub use Lists.*
pub use Equality.*
unfoldable pub use Results.*
pub use Int.*
unfoldable pub use Bytes.*
pub use Prim.Native.Nat.{ℕ, zero, suc, ◌+◌, ◌-◌, ◌*◌, ◌/◌, ◌%◌, ◌^◌, ◌≤◌, ◌<◌, min}
pub use mathlib.Core.Path.{◌≡◌, refl, sym, ap, ◌∙◌, subst}
pub use mathlib.Core.Logic.{◌≢◌, ◌↔◌, ◌⊎◌, inl, inr}
pub use mathlib.Core.Bool.{Bool, true, false, not, ◌&&◌, ◌||◌}
pub use mathlib.Core.Option.{Option, none, some}
pub use mathlib.Core.List.{List, [], ◌∷◌, ◌++◌, map}
pub use native.Mathlib.Omega.{arith}
