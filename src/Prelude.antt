-- ===== src/Prelude.antt =====
-- The names that the modules share: the libraries', passed on, and those of the children below,
-- which hold the C operators, lists over the native numbers and programs that may exit.
mod Tests
mod Lists
mod Word
mod Text
pub mod Decimal
pub mod Run
pub mod Scan
pub use Tests.*
pub use Lists.*
pub use Word.*
pub use Text.*
pub use Prim.Native.Nat.{ℕ, zero, suc, ◌+◌, ◌-◌, ◌*◌, ◌/◌, ◌%◌, ◌^◌, ◌≤◌, ◌<◌}
pub use mathlib.Core.Path.{◌≡◌, refl, sym, ap, ap₂, ◌∙◌}
pub use mathlib.Core.Logic.{◌≢◌, ◌↔◌, ◌⊎◌, inl, inr}
pub use mathlib.Core.Bool.{Bool, true, false, not, ◌&&◌, ◌||◌}
pub use mathlib.Core.Option.{Option, none, some}
pub use mathlib.Core.List.{List, [], ◌∷◌, ◌++◌, map}
pub use native.Mathlib.Omega.{arith}
