-- ===== src/Base.antt =====
-- The names that the modules of this library share: those of the antt libraries, passed on, and
-- the tests, list operations and bit laws of three child modules.
mod Tests
mod Lists
mod Bits
pub use Tests.*
pub use Lists.*
pub use Bits.*
unfoldable pub use Bits.{all_below}
pub use Prim.Native.Nat.{ℕ, zero, suc, ◌+◌, ◌-◌, ◌*◌, ◌/◌, ◌%◌, ◌^◌, ◌≤◌, ◌<◌, min}
pub use Prim.Native.Nat.{bit_or, bit_xor, bit_and}
pub use mathlib.Core.Path.{◌≡◌, refl, sym, ap, ap₂, ◌∙◌}
pub use mathlib.Core.Logic.{◌≢◌, ◌↔◌, ◌⊎◌, inl, inr}
pub use mathlib.Core.Bool.{Bool, true, false, not, ◌&&◌, ◌||◌}
unfoldable pub use mathlib.Core.Bool.{xor}
pub use mathlib.Core.Bool.{beq}
pub use mathlib.Core.Option.{Option, none, some}
pub use mathlib.Core.List.{List, [], ◌∷◌, ◌++◌, append-nil, append_assoc}
unfoldable pub use mathlib.Core.List.{flatten}
pub use native.Mathlib.Omega.{arith}
