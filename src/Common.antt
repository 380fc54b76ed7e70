-- ===== src/Common.antt =====
-- Names that every module shares: the libraries', passed on, Boolean tests on numbers, and the
-- association lists that stand for `l_hashmap` tables.
mod Tests
mod Lists
pub mod Queue
pub mod Monad
pub mod Hoare
pub mod Int
unfoldable pub use Tests.*
pub use Int.{ℤ, pos, negsuc, is_neg, is_zero, eq_ℤ}
unfoldable pub use Lists.*
pub use Prim.Native.Nat.{ℕ, zero, suc, ◌+◌, ◌-◌, ◌*◌, ◌/◌, ◌%◌, ◌^◌, ◌≤◌, ◌<◌}
pub use Prim.Native.String.{String}
pub use mathlib.Core.Path.{◌≡◌, refl, sym, ap, subst, ◌∙◌}
pub use mathlib.Core.Logic.{◌≢◌, ◌↔◌, ◌⊎◌, inl, inr}
pub use mathlib.Core.Bool.{Bool, true, false, ◌&&◌, ◌||◌, not}
pub use mathlib.Core.Option.{Option, none, some}
pub use mathlib.Core.List.{List, [], ◌∷◌, ◌++◌, map}
pub use native.Mathlib.Omega.{arith}
