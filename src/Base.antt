-- ===== src/Base.antt =====
-- The names that the other modules share: those of the libraries, passed on, and those of the
-- children below. No code of the repository is modelled here but Python's built-in operations.
mod Tests
mod Lists
mod Dicts
pub mod Chars
mod Numbers
mod Sort
mod Values
mod Results
pub use Tests.*
pub use Lists.*
unfoldable pub use Dicts.{lookup, insert, delete, update}
pub use Dicts.{
  Dict, keys, values, lookup-insert, lookup-delete, lookup-insert_self, lookup-insert_ne,
  lookup-nil, dict_laws,
}
unfoldable pub use Chars.{
  Text, codes, concat, join, is_space, strip, words, last_word, starts_with, partition, split_on,
  text_of, join_text,
}
unfoldable pub use Chars.Native.{partition_string, ascii_only}
pub use Chars.{
  codes-text_of, split_on-join, NoSpaces, strip-NoSpaces, partition-append, partition-none,
}
pub use Chars.Native.{LacksCode, partition_string-append, partition_string_sound}
unfoldable pub use Chars.Breaks.{newlines, lines_from, split_lines}
pub use Chars.Breaks.{is_break}
unfoldable pub use Numbers.{decimal, int_of_text, string_of_nat}
pub use Numbers.{
  ℤ, pos, negsuc, IsDecimal, decimal-IsDecimal, decimal-ne-nil, int_of_text-decimal, decimal_one,
  decimal_two, decimal_three,
}
unfoldable pub use Sort.{str_lt, insert_sorted, sorted, insert_nat, sorted_nat}
pub use Values.{
  Value, Items, Fields, items, pairs, of_items, of_pairs, list_of, dict_of, items-of_items,
  pairs-of_pairs, nil, cons, end, field,
}
pub use Results.*
pub use Prim.Native.Nat.{ℕ, zero, suc, ◌+◌, ◌-◌, ◌*◌, ◌/◌, ◌%◌, ◌^◌, ◌≤◌, ◌<◌}
pub use Prim.Native.String.{String}
pub use mathlib.Core.Path.{◌≡◌, refl, sym, ap, ap₂, ◌∙◌, subst}
pub use mathlib.Core.Logic.{◌≢◌, ◌↔◌, ◌⊎◌, inl, inr}
pub use mathlib.Core.Bool.{Bool, true, false, not, ◌&&◌, ◌||◌}
pub use mathlib.Core.Option.{Option, none, some}
pub use mathlib.Core.List.{List, [], ◌∷◌, ◌++◌, map, append_assoc, append-nil}
pub use native.Mathlib.Omega.{arith}
pub use text.Mathlib.Text.{◌==◌}
pub use text.Mathlib.TextEquality.{eq_iff}
pub use text.Mathlib.TextPositions.{eq_refl}
