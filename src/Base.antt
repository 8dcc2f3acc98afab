-- ===== src/Base.antt =====
-- The names that the other modules share: the libraries', passed on, and those of the children.
mod Tests
mod Lists
mod Text
mod Ints
mod Maps
mod Members
pub mod Results
pub mod Runs
mod Decimal
pub mod Regex
pub mod Atoi
pub mod Numerals
pub use Tests.*
pub use Lists.*
pub use Text.{
  GoString, string_eq_iff, string_eq_refl, string_eq_ne, string_Eq, has_prefix_iff,
  trim_prefix-append, extend_head,
}
unfoldable pub use Text.{bytes, string_eq, has_prefix, trim_prefix, split}
pub use Ints.{
  ℤ, pos, negsuc, pos_part, neg_part, ltb_ℤ, ltb_ℤ_iff, ◌<ℤ◌, ◌≤ℤ◌, int_Eq, int_eq_iff, FitsSigned,
  leb_ℤ,
}
unfoldable pub use Ints.{◌+ℤ◌}
pub use Maps.{
  GoMap, HasDistinctKeys, SameEntries, lookup-insert, insert-HasDistinctKeys, length-insert,
}
unfoldable pub use Maps.{lookup, insert}
pub use Members.{
  Member, here, there, HaveSameMembers, HaveDistinct, Member-matching, find-none, find_sound,
  find_unique, matching-none, All-of_members, Member-map,
}
unfoldable pub use Members.{matching, find}
pub use Results.{Result, ok, err, wrap}
unfoldable pub use Decimal.{digits, format_nat, format_int}
pub use Runs.{Run, returns, panics}
pub use Prim.Native.Nat.{ℕ, zero, suc, ◌+◌, ◌-◌, ◌*◌, ◌/◌, ◌%◌, ◌^◌, ◌≤◌, ◌<◌}
pub use mathlib.Core.Path.{◌≡◌, refl, sym, ap, ◌∙◌, subst}
pub use mathlib.Core.Logic.{◌≢◌, ◌↔◌, ◌⊎◌, inl, inr}
pub use mathlib.Core.Bool.{Bool, true, false, not, ◌&&◌, ◌||◌}
pub use mathlib.Core.Option.{Option, none, some}
pub use mathlib.Core.List.{List, [], ◌∷◌, ◌++◌, map}
pub use native.Mathlib.Omega.{arith}
