-- ===== src/Common.antt =====
-- The names that the other modules share: the libraries' that the program's parts use, passed on,
-- and those of the children.
mod Tests
mod Lists
mod Int
mod Dicts
mod Text
pub use Tests.*
pub use Lists.*
pub use Text.{text_le, All-sort, All-sort_back, length-sort}
unfoldable pub use Text.{is_space, strip, is_part, sort}
pub use Int.{
  ℤ, pos, negsuc, pos_part, neg_part, sub_ℕ, is_neg, ltb_ℤ, min_ℤ, max_ℤ, +ℤ_parts, -ℤ_parts,
}
unfoldable pub use Int.{◌+ℤ◌, ◌-ℤ◌}
pub use Dicts.{Dict, lookup-insert, lookup-erase, All-lookup}
unfoldable pub use Dicts.{lookup, insert, erase}
pub use Prim.Native.Nat.{ℕ, zero, suc, ◌+◌, ◌-◌, ◌*◌, ◌/◌, ◌%◌, ◌^◌, ◌≤◌, ◌<◌, min, max}
pub use Prim.Native.String.{String}
pub use mathlib.Core.Path.{◌≡◌, refl, sym, ap, ap₂, ◌∙◌, subst}
pub use mathlib.Core.Logic.{◌≢◌, ◌↔◌, ◌⊎◌, inl, inr}
pub use mathlib.Core.Bool.{Bool, true, false, ◌&&◌, ◌||◌, not}
pub use mathlib.Core.Option.{Option, none, some}
pub use mathlib.Core.List.{List, [], ◌∷◌, ◌++◌, map}
pub use native.Mathlib.Omega.{arith}
pub use text.Mathlib.TextEquality.{eq_iff}
