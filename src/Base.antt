-- ===== src/Base.antt =====
-- The names that every module shares: the libraries', passed on, and those of its children.
-- `Base.Int` holds the decimals: amounts and rates in ten-thousandths (see Lib.antt).
mod Tests
mod Lists
mod Int
mod Strings
mod Errors
mod Sorting
mod Rows
mod Digits
pub use Tests.*
pub use Lists.*
unfoldable pub use Int.*
unfoldable pub use Strings.*
pub use Errors.*
unfoldable pub use Sorting.*
unfoldable pub use Rows.*
unfoldable pub use Digits.*
pub use Prim.Native.Nat.{ℕ, zero, suc, ◌+◌, ◌-◌, ◌*◌, ◌/◌, ◌%◌, ◌≤◌, ◌<◌}
pub use mathlib.Core.Path.{◌≡◌, refl, sym, ap, subst, ◌∙◌}
pub use mathlib.Core.Logic.{◌≢◌, ◌↔◌, ◌⊎◌, inl, inr}
pub use mathlib.Core.Bool.{Bool, true, false, ◌&&◌, ◌||◌, not}
pub use mathlib.Core.Option.{Option, none, some}
pub use mathlib.Core.List.{List, [], ◌∷◌, ◌++◌, map}
pub use native.Mathlib.Omega.{arith}
