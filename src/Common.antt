-- ===== src/Common.antt =====
-- The names that the modules share: the library's, passed on, and those of the children below.
mod Tests
mod Lists
mod Codes
mod Strings
mod Cuts
mod Maps
mod Results
pub use Tests.*
pub use Lists.*
unfoldable pub use Codes.*
unfoldable pub use Strings.*
unfoldable pub use Cuts.*
unfoldable pub use Maps.*
pub use Results.*
pub use Prim.Native.Nat.{ℕ, zero, suc, ◌+◌, ◌-◌, ◌*◌, ◌/◌, ◌%◌, ◌^◌, ◌≤◌, ◌<◌}
pub use mathlib.Core.Path.{◌≡◌, refl, sym, ap, ◌∙◌, subst}
pub use mathlib.Core.Logic.{◌≢◌, ◌↔◌, ◌⊎◌, inl, inr}
pub use mathlib.Core.Bool.{Bool, true, false, not, ◌&&◌, ◌||◌}
pub use mathlib.Core.Option.{Option, none, some}
pub use mathlib.Core.List.{List, [], ◌∷◌, ◌++◌, map, append_assoc, append-nil}
pub use native.Mathlib.Omega.{arith}
