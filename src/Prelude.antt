-- ===== src/Prelude.antt =====
-- What every module shares: the names of the libraries that are in use, and those of the
-- children, which hold Boolean tests, lists over native numbers, orders and Python's `sorted`.
mod Tests
mod Lists
mod Fallible
mod Strip
mod Decimal
mod Sets
mod TextOrder
mod Order
mod Sort
mod Names
unfoldable pub use Tests.*
unfoldable pub use Lists.*
pub use Fallible.*
unfoldable pub use Strip.*
unfoldable pub use Decimal.*
unfoldable pub use Sets.*
unfoldable pub use TextOrder.*
unfoldable pub use Sort.*
pub use Names.*
unfoldable pub use Order.*
pub use Prim.Native.Nat.{ℕ, zero, suc, ◌+◌, ◌-◌, ◌*◌, ◌/◌, ◌%◌, ◌≤◌, ◌<◌, min, max}
pub use Prim.Native.String.{String}
pub use mathlib.Core.Path.{◌≡◌, refl, sym, ap, ap₂, ◌∙◌, fun_ext, subst}
pub use mathlib.Core.Logic.{◌≢◌, ◌↔◌, ◌⊎◌, inl, inr}
pub use mathlib.Core.Bool.{Bool, true, false, not, ◌&&◌, ◌||◌}
pub use mathlib.Core.Option.{Option, none, some}
pub use mathlib.Core.List.{List, [], ◌∷◌, ◌++◌, map}
pub use native.Mathlib.Omega.{arith}
