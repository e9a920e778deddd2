-- ===== src/Base.antt =====
-- The names that the other modules share: the library's, passed on, and those of the children.
mod Tests
mod Eq
mod Lists
mod Dict
mod Text
mod Sorting
mod SortBy
mod Loops
mod TextOrder
pub use Tests.*
pub use Eq.{
  Equality, ◌==◌, beq_refl, beq_false, beq→eq, string_equality, nat_equality, option_equality,
  pair_equality, list_equality,
}
pub use Lists.*
pub use Dict.*
unfoldable pub use Dict.{insert}
pub use Sorting.*
unfoldable pub use Sorting.{insert_unique, sort_unique}
pub use SortBy.*
pub use Loops.*
unfoldable pub use Loops.{concat_map}
unfoldable pub use SortBy.{insert_by, sort_by}
pub use TextOrder.*
pub use Text.*
unfoldable pub use Text.{
  is_blank, starts_with_code, ends_with_code, drop_first, drop_last, is_space, strip_left,
  strip_right, strip, lower_char, lower, partition, join, starts_with, strip_code, replace_code,
  show,
}
pub use Prim.Native.Nat.{ℕ, zero, suc, ◌+◌, ◌-◌, ◌*◌, ◌≤◌, ◌<◌}
pub use Prim.Native.String.{String}
pub use mathlib.Core.Path.{◌≡◌, refl, sym, ap, ◌∙◌, subst}
pub use mathlib.Core.Logic.{◌≢◌, ◌↔◌, ◌⊎◌, inl, inr}
pub use mathlib.Core.Bool.{Bool, true, false, not, ◌&&◌, ◌||◌}
pub use mathlib.Core.Option.{Option, none, some}
pub use mathlib.Core.List.{List, [], ◌∷◌, ◌++◌, map}
pub use native.Mathlib.Omega.{arith}
pub use text.Mathlib.TextEquality.{eq_iff}
