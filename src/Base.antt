-- ===== src/Base.antt =====
-- The names that the other modules share: the library's, passed on, and those of the children.
pub mod Tests
pub mod Lists
pub mod Strings
pub mod Decimal
pub mod Laws
pub mod Order
pub mod Json
pub mod Lines
pub mod Dict
pub mod Sorting
pub mod Integers
pub use Tests.*
pub use Lists.*
pub use Strings.*
unfoldable pub use Strings.{◌==◌, text_lt, is_space, trim}
unfoldable pub use Decimal.{show}
pub use Decimal.{show-injective, IsDigit, show-IsDigit}
pub use Prim.Native.Nat.{ℕ, zero, suc, ◌+◌, ◌-◌, ◌*◌, ◌/◌, ◌%◌, ◌^◌, ◌≤◌, ◌<◌, min, max}
pub use mathlib.Core.Path.{◌≡◌, refl, sym, ap, ◌∙◌}
pub use mathlib.Core.Logic.{◌≢◌, ◌↔◌, ◌⊎◌, inl, inr}
pub use mathlib.Core.Bool.{Bool, true, false, ◌&&◌, ◌||◌, not}
pub use mathlib.Core.Option.{Option, none, some}
pub use mathlib.Core.List.{List, [], ◌∷◌, ◌++◌, map}
pub use native.Mathlib.Omega.{arith}
