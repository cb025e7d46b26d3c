-- ===== src/Common.antt =====
-- The names that the other modules share: the libraries', passed on, and its children's.
mod Tests
mod Lists
mod Bits
mod Folds
mod BitOr
mod Maps
pub use Tests.*
pub use Lists.*
pub use Bits.*
pub use Folds.*
pub use BitOr.*
unfoldable pub use Maps.*
pub use Prim.Native.Nat.{ℕ, zero, suc, ◌+◌, ◌-◌, ◌*◌, ◌/◌, ◌%◌, ◌^◌, ◌≤◌, ◌<◌}
pub use mathlib.Core.Path.{◌≡◌, refl, sym, ap, ◌∙◌, fun_ext}
pub use mathlib.Core.Logic.{◌≢◌, ◌↔◌, ◌⊎◌, inl, inr}
pub use mathlib.Core.Bool.{Bool, true, false, not, ◌&&◌, ◌||◌}
pub use mathlib.Core.Option.{Option, none, some}
pub use mathlib.Core.List.{List, [], ◌∷◌, ◌++◌, map, append-nil, append_assoc, map-map}
pub use native.Mathlib.Omega.{arith}
