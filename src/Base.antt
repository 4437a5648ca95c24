-- ===== src/Base.antt =====
-- The names that the other modules share: the libraries', passed on, and those of the children.
mod Tests
mod Lists
mod Integers
mod Members
mod Words
mod Chars
mod Letters
mod Decimal
mod Results
mod Actions
mod Floats
mod Sorting
pub use Tests.*
pub use Lists.*
pub use Integers.*
unfoldable pub use Integers.{◌+ℤ◌, as_i32}
pub use Members.*
pub use Words.*
unfoldable pub use Words.{wrap32, wrap64}
pub use Chars.*
unfoldable pub use Chars.{text_eq, strip_prefix, starts_with, contains, len_utf8, byte_len}
pub use Letters.*
unfoldable pub use Letters.{ascii_lower, is_control, is_whitespace, trim_start, trim}
pub use Floats.*
unfoldable pub use Floats.{magnitude, is_nan, rank, partial_cmp}
pub use Decimal.*
unfoldable pub use Decimal.{decimal, digits_before}
pub use Results.*
pub use Actions.*
pub use Sorting.*
unfoldable pub use Sorting.{sort_by}
pub use Prim.Native.Nat.{
  Ordering, compare, ℕ, zero, suc, ◌+◌, ◌-◌, ◌*◌, ◌/◌, ◌%◌, ◌^◌, ◌≤◌, ◌<◌, min,
}
pub use Prim.Native.String.{String}
pub use mathlib.Core.Path.{◌≡◌, refl, sym, ap, ◌∙◌}
pub use mathlib.Core.Logic.{◌≢◌, ◌↔◌, ◌⊎◌, inl, inr}
pub use mathlib.Core.Bool.{Bool, true, false, not, ◌&&◌, ◌||◌}
pub use mathlib.Core.Option.{Option, none, some}
pub use mathlib.Core.List.{List, [], ◌∷◌, ◌++◌, map, Perm}
pub use native.Mathlib.Omega.{arith}
