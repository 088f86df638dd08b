-- ===== src/Base.antt =====
-- The names that the other modules share: those of the libraries, passed on, and the tests,
-- lists and word operations of the children.
mod Tests
mod Order
mod Switch
pub mod Word
pub mod Bits
pub mod Bytes
pub use Tests.*
pub use Order.*
unfoldable pub use Switch.{switch}
pub use Switch.{AllCases, either, switch_all}
pub use Prim.Native.Nat.{ℕ, zero, suc, ◌+◌, ◌-◌, ◌*◌, ◌/◌, ◌%◌, ◌^◌, ◌≤◌, ◌<◌}
pub use Prim.Native.Nat.{bit_and, bit_or, bit_xor, min, max}
pub use mathlib.Core.Path.{◌≡◌, refl, sym, ap, ◌∙◌}
pub use mathlib.Core.Logic.{◌≢◌, ◌↔◌, ◌⊎◌, inl, inr}
pub use mathlib.Core.Bool.{Bool, true, false, not, ◌&&◌, ◌||◌}
pub use mathlib.Core.Option.{Option, none, some}
pub use mathlib.Core.List.{List, [], ◌∷◌, ◌++◌}
pub use native.Mathlib.Omega.{arith}
