-- ===== src/Prelude.antt =====
-- Names that all modules share: those of the libraries, passed on, the Boolean tests, the lists
-- indexed by native numbers, and the arithmetic of `u64`.
mod Tests
mod Lists
mod Words
mod Updates
mod Bits
mod Bytes
mod Slices
pub use Tests.*
pub use Lists.*
pub use Words.*
pub use Updates.*
unfoldable pub use Bits.*
unfoldable pub use Bytes.*
pub use Slices.*
pub use Prim.Native.Nat.{ℕ, zero, suc, ◌+◌, ◌-◌, ◌*◌, ◌/◌, ◌%◌, ◌^◌, ◌≤◌, ◌<◌, min, max}
pub use mathlib.Core.Path.{◌≡◌, refl, sym, ap, subst, ◌∙◌}
pub use mathlib.Core.Logic.{◌≢◌, ◌↔◌, ◌⊎◌, inl, inr}
pub use mathlib.Core.Bool.{Bool, true, false, ◌&&◌, ◌||◌, not}
pub use mathlib.Core.Option.{Option, none, some}
pub use mathlib.Core.List.{List, [], ◌∷◌, ◌++◌, map, append_assoc, append-nil}
pub use native.Mathlib.Omega.{arith}
unfoldable pub use native.Mathlib.Decide.{dec_lt, ℕ_discrete}
