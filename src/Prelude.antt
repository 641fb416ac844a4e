-- ===== src/Prelude.antt =====
-- The names that every module shares: the libraries', passed on, and those of the children.
mod Tests
mod Lists
mod Dicts
mod Sort
mod Strings
mod TextSets
pub use Tests.*
pub use Lists.*
pub use Dicts.*
pub use Strings.*
unfoldable pub use TextSets.{distinct, sorted_set}
pub use TextSets.{one_of-In, In-one_of, sorted_set_cong, In-sorted_set}
unfoldable pub use Sort.{insert_by, sort_by}
pub use Sort.{
  IsSorted, IsSorted-take, insert_by_inv, insert_by_self, insert_by_old, sort_by_inv, In-sort_by,
  length-insert_by, length-sort_by, sort_by-IsSorted, take_or_after,
}
pub use Prim.Native.Nat.{ℕ, zero, suc, ◌+◌, ◌-◌, ◌*◌, ◌/◌, ◌%◌, ◌^◌, ◌≤◌, ◌<◌, min, max}
pub use Prim.Native.String.{String}
pub use mathlib.Core.Path.{◌≡◌, refl, sym, ap, subst, ◌∙◌}
pub use mathlib.Core.Logic.{◌≢◌, ◌↔◌, ◌⊎◌, inl, inr}
pub use mathlib.Core.Bool.{Bool, true, false, not, ◌&&◌, ◌||◌, false≢true}
pub use mathlib.Core.Option.{Option, none, some}
pub use mathlib.Core.List.{List, [], ◌∷◌, ◌++◌, map, append-nil, append_assoc}
pub use native.Mathlib.Omega.{arith}
pub use text.Mathlib.Text.{◌==◌}
pub use text.Mathlib.TextEquality.{eq_iff}
pub use text.Mathlib.TextPositions.{eq_refl}
