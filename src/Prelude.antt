-- ===== src/Prelude.antt =====
-- Names that every module shares: the libraries', passed on, Boolean tests and lists over the
-- native numbers. The children Int, Text, Strings, Dict and Sort model the parts of Go's language and
-- standard library that the server uses.
mod Tests
mod Lists
pub mod Int
pub mod Text
pub mod Strings
pub mod Dict
pub mod Sort
pub mod Ordered
pub use Tests.*
pub use Lists.*
pub use Prim.Native.Nat.{ℕ, zero, suc, ◌+◌, ◌-◌, ◌*◌, ◌/◌, ◌%◌, ◌^◌, ◌≤◌, ◌<◌}
pub use mathlib.Core.Path.{◌≡◌, refl, sym, ap, ◌∙◌}
pub use mathlib.Core.Logic.{◌≢◌, ◌↔◌, ◌⊎◌, inl, inr}
pub use mathlib.Core.Bool.{Bool, true, false, not, ◌&&◌, ◌||◌}
pub use mathlib.Core.Option.{Option, none, some}
pub use mathlib.Core.List.{List, [], ◌∷◌, ◌++◌, map}
pub use native.Mathlib.Omega.{arith}
