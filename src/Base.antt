-- ===== src/Base.antt =====
-- Names that every module shares: the libraries', passed on, and those of its children.
mod Tests
mod Lists
mod Text
pub mod Sort
pub mod Filter
pub mod Strip
pub use Tests.*
pub use Lists.*
pub use Text.*
unfoldable pub use Text.{strip, lstrip, rstrip, contains, remove_prefix}
pub use Prim.Native.Nat.{ℕ, zero, suc, ◌+◌, ◌-◌, ◌*◌, ◌≤◌, ◌<◌, max}
pub use Prim.Native.String.{String}
pub use mathlib.Core.Path.{◌≡◌, refl, sym, ap, ap₂, subst, ◌∙◌}
pub use mathlib.Core.Logic.{◌≢◌, ◌↔◌, ◌⊎◌, inl, inr}
pub use mathlib.Core.Bool.{Bool, true, false, not, ◌&&◌, ◌||◌}
pub use mathlib.Core.Option.{Option, none, some, some-injective}
pub use mathlib.Core.List.{List, [], ◌∷◌, ◌++◌, map, reverse}
pub use native.Mathlib.Omega.{arith}
