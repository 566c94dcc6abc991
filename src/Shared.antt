-- ===== src/Shared.antt =====
-- The names that all components share: the libraries', passed on, and those of the children.
mod Tests
mod Text
mod Errors
mod Lists
pub mod Lands
pub mod Dict
pub mod GoMap
pub mod Format
pub mod Int
unfoldable pub use Tests.*
unfoldable pub use Text.*
unfoldable pub use Errors.*
unfoldable pub use Lists.*
pub use Prim.Native.Nat.{ℕ, zero, suc, ◌+◌, ◌-◌, ◌*◌, ◌/◌, ◌%◌, ◌^◌, ◌≤◌, ◌<◌}
pub use Prim.Native.String.{String}
pub use mathlib.Core.Path.{◌≡◌, refl, sym, ap, ◌∙◌, fun_ext}
pub use mathlib.Core.Logic.{◌≢◌, ◌↔◌, ◌⊎◌, inl, inr}
pub use mathlib.Core.Bool.{Bool, true, false, ◌&&◌, ◌||◌, not}
pub use mathlib.Core.Option.{Option, none, some}
pub use mathlib.Core.List.{List, [], ◌∷◌, ◌++◌, map}
pub use native.Mathlib.Omega.{arith}
