-- ===== src/Prelude.antt =====
-- The names that the other modules share: the libraries', passed on, and those of the modules below.
mod Tests
mod Int
mod Lists
mod Loops
mod Names
mod Totals
mod Maps
pub use Tests.*
unfoldable pub use Int.*
pub use Lists.*
pub use Loops.*
unfoldable pub use Names.*
unfoldable pub use Maps.*
unfoldable pub use Totals.*
pub use Prim.Native.Nat.{ℕ, zero, suc, ◌+◌, ◌-◌, ◌*◌, ◌/◌, ◌%◌, ◌≤◌, ◌<◌, min}
pub use mathlib.Core.Path.{◌≡◌, refl, sym, ap, ◌∙◌, subst}
pub use mathlib.Core.Logic.{◌≢◌, ◌↔◌, ◌⊎◌, inl, inr}
pub use mathlib.Core.Bool.{Bool, true, false}
pub use mathlib.Core.Option.{Option, none, some}
pub use mathlib.Core.List.{List, [], ◌∷◌, ◌++◌, map}
pub use native.Mathlib.Omega.{arith}
