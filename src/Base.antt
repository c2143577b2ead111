-- ===== src/Base.antt =====
-- Names that every module of the development shares: those of the libraries, passed on, and the
-- tests, lists, texts and bytes of the children.
mod Tests
mod Lists
mod Texts
mod CStrings
mod Decimals
mod Monad
pub use Tests.*
pub use Lists.*
pub use Monad.*
pub use CStrings.*
unfoldable pub use Decimals.*
pub use Texts.*
pub use Prim.Native.Nat.{ℕ, zero, suc, ◌+◌, ◌-◌, ◌*◌, ◌/◌, ◌%◌, ◌^◌, ◌≤◌, ◌<◌}
pub use Prim.Native.String.{String}
pub use mathlib.Core.Path.{◌≡◌, refl, sym, ap, subst, ◌∙◌}
pub use mathlib.Core.Logic.{◌≢◌, ◌↔◌, ◌⊎◌, inl, inr}
pub use mathlib.Core.Bool.{Bool, true, false, not, ◌&&◌, ◌||◌}
pub use mathlib.Core.Option.{Option, none, some}
pub use mathlib.Core.List.{List, [], ◌∷◌, ◌++◌, map}
pub use native.Mathlib.Omega.{arith}
