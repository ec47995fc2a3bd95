-- ===== src/Common.antt =====
-- The names that the other modules share: the libraries', passed on, and those of the children.
mod Tests
mod Lists
mod Results
mod Texts
mod Sorting
mod Lexical
mod Int
mod Decimal
pub mod Json
mod Uuid
mod Space
pub use Tests.*
pub use Lists.*
pub use Results.*
unfoldable pub use Texts.{text_leb}
pub use Texts.{text_leb_total, text_leb_trans, text_leb_antisym}
pub use Lexical.*
unfoldable pub use Sorting.{sort}
pub use Sorting.{
  IsSorted, All-sort, sort-All, sort-Among, length-sort, sort-same, sort_swap, sort_cons,
  sort-IsSorted, map-sort, IsNodup-map-sort, Among-sort, contains-map-sort,
}
pub use Int.*
unfoldable pub use Decimal.{decimal}
unfoldable pub use Uuid.{is_canonical_uuid}
unfoldable pub use Space.{strip, is_trimmed}
pub use Prim.Native.Nat.{ℕ, zero, suc, ◌+◌, ◌-◌, ◌*◌, ◌≤◌, ◌<◌, max}
pub use Prim.Native.String.{String}
pub use mathlib.Core.Path.{◌≡◌, refl, sym, ap, ◌∙◌, subst, fun_ext}
pub use mathlib.Core.Logic.{◌≢◌, ◌↔◌, ◌⊎◌, inl, inr}
pub use mathlib.Core.Bool.{Bool, true, false, not, ◌&&◌, ◌||◌}
pub use mathlib.Core.Option.{Option, none, some}
pub use mathlib.Core.List.{List, [], ◌∷◌, ◌++◌, map, map-append}
pub use native.Mathlib.Omega.{arith}
pub use text.Mathlib.TextEquality.{eq_iff}
