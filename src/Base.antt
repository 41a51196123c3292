-- ===== src/Base.antt =====
-- The names that every other module shares: the libraries', passed on, the Boolean tests, the
-- order of texts, lists used as sets and as dictionaries, and results that may be an error.
mod Tests
mod Order
mod Sets
mod Members
pub mod Assoc
pub mod AllOf
pub mod Float
pub mod Numbers
mod Outcome
pub use Tests.*
unfoldable pub use Tests.{text_lt}
unfoldable pub use Sets.{sorted_texts}
pub use Order.*
pub use Sets.*
pub use Members.*
pub use Outcome.*
pub use Prim.Native.Nat.{ℕ, zero, suc, ◌+◌, ◌-◌, ◌≤◌, ◌<◌, min}
pub use Prim.Native.String.{String}
pub use mathlib.Core.Path.{◌≡◌, refl, sym, ap, ◌∙◌, subst}
pub use mathlib.Core.Logic.{◌≢◌, ◌↔◌, ◌⊎◌, inl, inr}
pub use mathlib.Core.Bool.{Bool, true, false, not, ◌&&◌, ◌||◌}
pub use mathlib.Core.Option.{Option, none, some}
pub use mathlib.Core.List.{List, [], ◌∷◌, ◌++◌, map, append-nil, append_assoc}
pub use native.Mathlib.Omega.{arith}
pub use text.Mathlib.TextEquality.{eq_iff}
pub use text.Mathlib.TextPositions.{eq_refl}
