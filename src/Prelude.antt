-- ===== src/Prelude.antt =====
-- The names that the other modules share: the libraries', and those of the children.
mod Tests
mod Equality
mod Lists
pub mod Dict
pub mod Text
pub use Tests.*
pub use Equality.{
  Eq, ◌==◌, ◌!=◌, beq_refl, nat_eq, string_eq, pair_eq, option_eq, option_beq_iff, list_eq,
  list_beq_iff,
}
pub use Lists.*
pub use Prim.Native.Nat.{ℕ, zero, suc, ◌+◌, ◌-◌, ◌*◌, ◌≤◌, ◌<◌}
pub use Prim.Native.String.{String}
pub use mathlib.Core.Path.{◌≡◌, refl, sym, ap, ◌∙◌}
pub use mathlib.Core.Logic.{◌≢◌, ◌↔◌, ◌⊎◌, inl, inr}
pub use mathlib.Core.Bool.{Bool, true, false, ◌&&◌, ◌||◌, not}
pub use mathlib.Core.Option.{Option, none, some}
pub use mathlib.Core.List.{List, [], ◌∷◌, ◌++◌, map}
pub use native.Mathlib.Omega.{arith}
pub use text.Mathlib.Text.{◌==◌ as str_eq}
pub use text.Mathlib.TextEquality.{eq_iff}
