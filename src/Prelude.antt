-- ===== src/Prelude.antt =====
-- Names that all parts share: the libraries', passed on, and those of the children.
mod Tests
mod Lists
mod Results
mod Texts
mod Int
mod Atoi
pub use Tests.*
unfoldable pub use Lists.*
pub use Results.*
unfoldable pub use Texts.*
unfoldable pub use Int.*
unfoldable pub use Atoi.*
pub use Prim.Native.Nat.{ℕ, zero, suc, ◌+◌, ◌-◌, ◌*◌, ◌≤◌, ◌<◌}
pub use Prim.Native.String.{String}
pub use mathlib.Core.Path.{◌≡◌, refl, sym, ap, ◌∙◌, subst}
pub use mathlib.Core.Logic.{◌≢◌, ◌↔◌, ◌⊎◌, inl, inr}
pub use mathlib.Core.Bool.{Bool, true, false, not, ◌&&◌, ◌||◌}
pub use mathlib.Core.Option.{Option, none, some}
pub use mathlib.Core.List.{List, [], ◌∷◌, ◌++◌, map}
pub use native.Mathlib.Omega.{arith}
