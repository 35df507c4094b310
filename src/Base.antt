-- ===== src/Base.antt =====
-- The names that the components share: those of the libraries, passed on, the Boolean tests, the
-- lists over native numbers, machine words and the C integers.
mod Tests
mod Lists
mod Word
mod Search
mod Bits
mod Strings
pub use Tests.*
pub use Lists.*
pub use Strings.*
pub use Bits.*
unfoldable pub use Word.*
unfoldable pub use Search.*
pub use Prim.Native.Nat.{ℕ, zero, suc, ◌+◌, ◌-◌, ◌*◌, ◌/◌, ◌%◌, ◌^◌, ◌≤◌, ◌<◌}
pub use mathlib.Core.Path.{◌≡◌, refl, sym, ap, ◌∙◌}
pub use mathlib.Core.Logic.{◌≢◌, ◌↔◌, ◌⊎◌, inl, inr}
pub use mathlib.Core.Bool.{Bool, true, false, not, ◌&&◌, ◌||◌}
pub use mathlib.Core.Option.{Option, none, some}
pub use mathlib.Core.List.{List, [], ◌∷◌, ◌++◌, map}
pub use native.Mathlib.Omega.{arith}
