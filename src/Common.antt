-- ===== src/Common.antt =====
-- The names that the other modules share: those of the libraries, and those of the children, which
-- hold Boolean tests, equality tests, list operations and association lists.
mod Tests
mod Equality
mod Lists
mod Maps
mod Entries
mod Texts
pub use Tests.*
pub use Equality.*
pub use Lists.*
pub use Entries.*
pub use Maps.{Map, lookup-insert, lookup-retain}
unfoldable pub use Texts.{is_space}
unfoldable pub use Maps.{lookup, insert, retain}
pub use Prim.Native.Nat.{ℕ, zero, suc, ◌+◌, ◌-◌, ◌*◌, ◌/◌, ◌%◌, ◌^◌, ◌≤◌, ◌<◌}
pub use Prim.Native.String.{String}
pub use mathlib.Core.Path.{◌≡◌, refl, sym, ap, ap₂, ◌∙◌, subst, ◌≡⟨◌⟩◌, ◌∎}
pub use mathlib.Core.Logic.{◌≢◌, ◌↔◌, ◌⊎◌, inl, inr}
pub use mathlib.Core.Bool.{Bool, true, false, not, ◌&&◌, ◌||◌}
pub use mathlib.Core.Bool.{true≢false, false≢true}
pub use mathlib.Core.Option.{Option, none, some}
pub use mathlib.Core.List.{List, [], ◌∷◌, ◌++◌, map, append_assoc, append-nil}
pub use native.Mathlib.Omega.{arith}
pub use text.Mathlib.TextEquality.{eq_iff}
