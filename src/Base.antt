-- ===== src/Base.antt =====
-- The names that every part of the model shares: the libraries', passed on, and those of the
-- children (tests on numbers, lists, byte strings, hash maps, results, time).
pub mod Tests
pub mod Lists
pub mod Texts
pub mod Results
pub mod Time
pub mod Map
pub mod Paths
pub mod Trim
pub use Tests.*
pub use Lists.*
unfoldable pub use Texts.{Text, codes, same, contains, starts_with, ends_with, is_empty}
pub use Texts.{same_iff, same_refl, contains_iff}
pub use Results.*
pub use Time.*
pub use Prim.Native.Nat.{ℕ, zero, suc, ◌+◌, ◌-◌, ◌*◌, ◌/◌, ◌%◌, ◌^◌, ◌≤◌, ◌<◌, max}
pub use mathlib.Core.Path.{◌≡◌, refl, sym, ap, ◌∙◌, subst}
pub use mathlib.Core.Logic.{◌≢◌, ◌↔◌, ◌⊎◌, inl, inr}
pub use mathlib.Core.Bool.{Bool, true, false, ◌&&◌, ◌||◌, not}
pub use mathlib.Core.Option.{Option, none, some}
pub use mathlib.Core.List.{List, [], ◌∷◌, ◌++◌, map}
pub use native.Mathlib.Omega.{arith}
