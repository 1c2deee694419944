-- ===== src/Prelude.antt =====
-- The names that the other modules share: the libraries', passed on, and those of the children.
mod Tests
mod Lists
mod Maps
mod Unique
mod Results
mod Text
mod Int
mod Tables
mod Trim
mod Lines
mod TextEq
mod Decimal
mod Digits
pub use Tests.*
pub use Lists.*
pub use Unique.*
pub use Results.*
unfoldable pub use Text.{
  take_chars, concat, strip_prefix, starts_with, ends_with, is_whitespace, trim_start, trim,
  to_lower, contains_text, lines, before,
}
pub use Text.*
pub use Trim.*
pub use Lines.*
pub use TextEq.*
unfoldable pub use Decimal.{decimal, pad_zeros, parse_digits, parse_u32}
pub use Decimal.*
pub use Digits.*
pub use Int.*
unfoldable pub use Tables.{below_passes}
pub use Tables.*
unfoldable pub use Maps.{
  lookup, insert, remove, retain, contains, set_insert, set_remove, set_extend,
}
pub use Maps.*
pub use Prim.Native.Nat.{ℕ, zero, suc, ◌+◌, ◌-◌, ◌*◌, ◌/◌, ◌%◌, ◌^◌, ◌≤◌, ◌<◌, min, max}
pub use Prim.Native.String.{String}
pub use mathlib.Core.Path.{◌≡◌, refl, sym, ap, ◌∙◌}
pub use mathlib.Core.Logic.{◌≢◌, ◌↔◌, ◌⊎◌, inl, inr}
pub use mathlib.Core.Bool.{Bool, true, false, not, ◌&&◌, ◌||◌}
pub use mathlib.Core.Option.{Option, none, some}
pub use mathlib.Core.List.{List, [], ◌∷◌, ◌++◌, map}
pub use native.Mathlib.Omega.{arith}
pub use text.Mathlib.TextEquality.{eq_iff}
