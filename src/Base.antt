-- ===== src/Base.antt =====
-- The names that the other modules share: the libraries', passed on, and those of the children.
mod Tests
mod Lists
mod Texts
mod Maps
mod Clock
mod Integers
mod Sorting
pub use Integers.{ℤ, pos, negsuc, leb_int_total, leb_int_antisym, int_eq_sym}
unfoldable pub use Integers.{leb_int, int_eq}
unfoldable pub use Sorting.{insert_by, sort_by, count_if, drop}
pub use Sorting.{
  IsBehind, IsRanked, take-drop, take-All, append-All, count_if-insert_by, count_if-sort_by,
  sort_by-All, sort_by-IsRanked,
}
pub use Tests.*
pub use Clock.*
pub use Lists.*
unfoldable pub use Texts.{Text, codes, text_eq, text_lt}
pub use Texts.{text_eq_refl, text_eq_iff, text_lt_asym, text_lt_total}
unfoldable pub use Maps.{Assoc, lookup, insert, remove, retain, keep_if}
pub use Maps.{
  IsMap, lookup-insert, lookup-insert_self, lookup-remove, lookup-retain, insert-IsMap,
  remove-IsMap, retain-IsMap, Every, insert-Every, remove-Every, retain-Every,
}
pub use Prim.Native.Nat.{ℕ, zero, suc, ◌+◌, ◌-◌, ◌*◌, ◌/◌, ◌%◌, ◌^◌, ◌≤◌, ◌<◌, min, max}
pub use mathlib.Core.Path.{◌≡◌, refl, sym, ap, ◌∙◌, subst}
pub use mathlib.Core.Logic.{◌≢◌, ◌↔◌, ◌⊎◌, inl, inr}
pub use mathlib.Core.Bool.{Bool, true, false, not, ◌&&◌, ◌||◌}
pub use mathlib.Core.Option.{Option, none, some}
pub use mathlib.Core.List.{List, [], ◌∷◌, ◌++◌, map}
pub use native.Mathlib.Omega.{arith}
