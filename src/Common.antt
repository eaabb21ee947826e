-- ===== src/Common.antt =====
-- The names that the other modules share: the libraries', passed on, and those of the children.
mod Tests
mod Lists
pub mod Int
pub mod Maps
pub use Tests.*
pub use Lists.*
pub use Int.{ℤ, pos, negsuc, to_ℕ, is_positive, at_least, exceeds, excess}
pub use Maps.{Map, same, same_iff, same_refl, values, keys, lookup-insert, lookup-delete}
unfoldable pub use Maps.{lookup, insert, delete}
pub use Maps.{Distinct, insert-Distinct, delete-Distinct, Entries, insert-Entries, delete-Entries}
pub use Maps.{lookup-Entries}
pub use Maps.{length-insert_new, length-insert_old, length-delete-le, length-delete-lt}
pub use Prim.Native.Nat.{ℕ, zero, suc, ◌+◌, ◌-◌, ◌*◌, ◌/◌, ◌%◌, ◌^◌, ◌≤◌, ◌<◌}
pub use Prim.Native.String.{String}
pub use mathlib.Core.Path.{◌≡◌, refl, sym, ap, subst, ◌∙◌}
pub use mathlib.Core.Logic.{◌≢◌, ◌↔◌, ◌⊎◌, inl, inr}
pub use mathlib.Core.Bool.{Bool, true, false, not, ◌&&◌, ◌||◌}
pub use mathlib.Core.Option.{Option, none, some}
pub use mathlib.Core.List.{List, [], ◌∷◌, ◌++◌, map}
pub use native.Mathlib.Omega.{arith}
