-- ===== src/Base.antt =====
-- The names that every module shares: the libraries', passed on, and those of the children below.
-- The children model what the Rust code takes from its standard library (tests and saturating sums
-- on numbers, vectors, sets and stable sorting) and hold the lemmas that the components share.
mod Tests
mod Lists
pub mod Int
pub mod Text
pub mod Result
pub mod Sort
pub mod Filter
pub mod Assoc
pub mod Dedup
pub mod Unique
pub mod Modular
unfoldable pub use Tests.*
unfoldable pub use Lists.*
pub use Prim.Native.Nat.{ℕ, zero, suc, ◌+◌, ◌-◌, ◌*◌, ◌/◌, ◌%◌, ◌^◌, ◌≤◌, ◌<◌, min, max}
pub use mathlib.Core.Path.{◌≡◌, refl, sym, ap, ◌∙◌, subst}
pub use mathlib.Core.Logic.{◌≢◌, ◌↔◌, ◌⊎◌, inl, inr}
pub use mathlib.Core.Bool.{Bool, true, false, not, ◌&&◌, ◌||◌}
pub use mathlib.Core.Option.{Option, none, some}
pub use mathlib.Core.List.{List, [], ◌∷◌, ◌++◌, map}
pub use native.Mathlib.Omega.{arith}
unfoldable pub use native.Mathlib.Decide.{dec_lt, dec_le, ℕ_discrete}
