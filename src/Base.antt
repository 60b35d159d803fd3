-- ===== src/Base.antt =====
-- The names that every module shares: those of the libraries, Boolean tests on native numbers,
-- lists measured by native numbers, and transactions.
mod Tests
mod Lists
mod Transaction
mod Returning
mod Deciding
pub use Tests.*
pub use Lists.*
unfoldable pub use Transaction.*
pub use Returning.*
unfoldable pub use Deciding.*
pub use Prim.Native.Nat.{ℕ, zero, suc, ◌+◌, ◌-◌, ◌*◌, ◌/◌, ◌%◌, ◌^◌, ◌≤◌, ◌<◌, min}
pub use Prim.Native.String.{String}
pub use mathlib.Core.Path.{◌≡◌, refl, sym, ap, ◌∙◌, subst, fun_ext}
pub use mathlib.Core.Logic.{◌≢◌, ◌↔◌, ◌⊎◌, inl, inr}
pub use mathlib.Core.Bool.{Bool, true, false, not, ◌&&◌, ◌||◌}
pub use mathlib.Core.Option.{Option, none, some}
pub use mathlib.Core.List.{List, [], ◌∷◌, ◌++◌, map}
pub use native.Mathlib.Omega.{arith}
