-- ===== src/Common.antt =====
-- Shared notation: library names passed on, Boolean tests, lists measured by native numbers,
-- machine words and the outcome of a call that may fail or panic.
mod Tests
mod Lists
mod Order
mod Keys
pub mod Map
mod Words
mod Result
pub mod Calls
pub use Tests.*
unfoldable pub use Lists.*
pub use Keys.*
pub use Order.*
pub use Words.*
pub use Result.*
pub use Prim.Native.Nat.{ℕ, zero, suc, ◌+◌, ◌-◌, ◌*◌, ◌/◌, ◌%◌, ◌^◌, ◌≤◌, ◌<◌, min, max}
pub use mathlib.Core.Path.{◌≡◌, refl, sym, ap, subst, ◌∙◌}
pub use mathlib.Core.Logic.{◌≢◌, ◌↔◌, ◌⊎◌, inl, inr}
pub use mathlib.Core.Bool.{Bool, true, false, not, ◌&&◌, ◌||◌}
pub use mathlib.Core.Option.{Option, none, some}
pub use mathlib.Core.List.{List, [], ◌∷◌, ◌++◌, map}
pub use native.Mathlib.Omega.{arith}
unfoldable pub use native.Mathlib.Decide.{dec_lt, ℕ_discrete}
