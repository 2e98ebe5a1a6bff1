-- ===== src/Prelude.antt =====
-- The names that the other modules share: those of the libraries, the Boolean tests, lists over
-- the native numbers, and the laws of the bit operations.
pub mod Int
mod Tests
mod Lists
mod Step
mod Bits
pub use Tests.*
pub use Lists.*
pub use Bits.*
pub use Step.{bit_and-zero, bit_or-zero}
pub use Prim.Native.Nat.{ℕ, zero, suc, ◌+◌, ◌-◌, ◌*◌, ◌/◌, ◌%◌, ◌^◌, ◌≤◌, ◌<◌, bit_and, bit_or}
pub use mathlib.Core.Path.{◌≡◌, refl, sym, ap, ◌∙◌}
pub use mathlib.Core.Logic.{◌≢◌, ◌↔◌, ◌⊎◌, inl, inr}
pub use mathlib.Core.Bool.{Bool, true, false, not, ◌&&◌, ◌||◌}
pub use mathlib.Core.Option.{Option, none, some}
pub use mathlib.Core.List.{List, [], ◌∷◌, ◌++◌}
pub use native.Mathlib.Omega.{arith}
