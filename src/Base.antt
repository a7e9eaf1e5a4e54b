-- ===== src/Base.antt =====
-- Names that every module shares: the libraries' names passed on, Boolean tests on numbers and
-- byte strings, lists measured by native numbers, and signed integers.
mod Tests
mod Lists
mod Ints
mod ByteStrings
mod Words
pub use Tests.*
pub use Lists.*
pub use Ints.*
pub use Words.*
unfoldable pub use ByteStrings.*
pub use Prim.Native.Nat.{ℕ, zero, suc, ◌+◌, ◌-◌, ◌*◌, ◌/◌, ◌%◌, ◌^◌, ◌≤◌, ◌<◌, min}
pub use mathlib.Core.Path.{◌≡◌, refl, sym, ap, ◌∙◌}
pub use mathlib.Core.Logic.{◌≢◌, ◌↔◌, ◌⊎◌, inl, inr}
pub use mathlib.Core.Bool.{Bool, true, false, not, ◌&&◌, ◌||◌, xor}
pub use mathlib.Core.Option.{Option, none, some}
pub use mathlib.Core.List.{List, [], ◌∷◌, ◌++◌, map}
pub use native.Mathlib.Omega.{arith}
