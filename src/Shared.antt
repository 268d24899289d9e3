-- ===== src/Shared.antt =====
-- The names that every component shares: those of the libraries, passed on, and the
-- children's tests on numbers, lists, texts and dictionaries.
mod Tests
mod Lists
mod Texts
mod Dicts
mod Decimals
mod Splits
pub use Tests.*
pub use Lists.*
unfoldable pub use Texts.*
unfoldable pub use Dicts.*
unfoldable pub use Decimals.*
unfoldable pub use Splits.*
pub use Prim.Native.Nat.{ℕ, zero, suc, ◌+◌, ◌-◌, ◌*◌, ◌/◌, ◌%◌, ◌^◌, ◌≤◌, ◌<◌}
pub use mathlib.Core.Path.{◌≡◌, refl, sym, ap, subst, ◌∙◌}
pub use mathlib.Core.Logic.{◌≢◌, ◌↔◌, ◌⊎◌, inl, inr}
pub use mathlib.Core.Bool.{Bool, true, false, not, ◌&&◌, ◌||◌}
pub use mathlib.Core.Option.{Option, none, some}
pub use mathlib.Core.List.{List, [], ◌∷◌, ◌++◌, map}
pub use native.Mathlib.Omega.{arith}
