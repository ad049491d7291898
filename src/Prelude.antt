-- ===== src/Prelude.antt =====
-- The names that every component shares: the libraries', passed on, and those of three children.
mod Tests
mod Lists
pub mod Int
pub use Tests.*
pub use Lists.{length, take, drop, is_empty, All, length-append, filter-append, last?-snoc}
pub use Lists.{last?_cons_some, any-append, All-append, All-filter, last?_All}
unfoldable pub use Lists.{filter, last?, find?, any, all}
pub use Prim.Native.Nat.{ℕ, zero, suc, ◌+◌, ◌-◌, ◌*◌, ◌≤◌, ◌<◌}
pub use Prim.Native.String.{String}
pub use mathlib.Core.Path.{◌≡◌, refl, sym, ap, ◌∙◌, subst}
pub use mathlib.Core.Logic.{◌≢◌, ◌↔◌, ◌⊎◌, inl, inr}
pub use mathlib.Core.Bool.{Bool, true, false, not, ◌&&◌, ◌||◌}
pub use mathlib.Core.Option.{Option, none, some}
pub use mathlib.Core.List.{List, [], ◌∷◌, ◌++◌, map, append-nil, append_assoc}
pub use native.Mathlib.Omega.{arith}
pub use text.Mathlib.Text.{◌==◌}
pub use text.Mathlib.TextEquality.{eq_iff}
pub use text.Mathlib.TextPositions.{eq_refl}
