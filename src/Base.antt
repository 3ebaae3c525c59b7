-- ===== src/Base.antt =====
-- The names that the other modules share: the libraries', passed on, and those of three children.
mod Tests
mod Lists
mod Strings
mod Lines
pub use Tests.*
pub use Lists.*
pub use Strings.{Text, codes, is_space, is_digit, is_lower, is_upper, to_lower, to_lower_idem}
pub use Strings.{
  lower, text_eq_iff, text_eq_refl, text_eq_sym, mem_text-append, mem_text-reverse, Text-discrete,
  show_nat_pos,
}
unfoldable pub use Strings.{
  text_eq, mem_text, drop_spaces, strip, rstrip, contains, split_lines, file_lines, split_words,
  join, show_nat,
}
unfoldable pub use Lines.{render}
pub use Lines.{is_plain, split_lines-plain, split_lines-render, file_lines-render, Cut, drop-Cut}
pub use Prim.Native.Nat.{ℕ, zero, suc, ◌+◌, ◌-◌, ◌*◌, ◌/◌, ◌%◌, ◌^◌, ◌≤◌, ◌<◌, min, max}
pub use mathlib.Core.Path.{◌≡◌, refl, sym, ap, ap₂, ◌∙◌, subst}
pub use mathlib.Core.Logic.{◌≢◌, ◌↔◌, ◌⊎◌, inl, inr}
pub use mathlib.Core.Bool.{Bool, true, false, not, ◌&&◌, ◌||◌}
pub use mathlib.Core.Option.{Option, none, some}
pub use mathlib.Core.List.{
  List, [], ◌∷◌, ◌++◌, map, reverse, append_assoc, append-nil, reverse-append,
}
pub use native.Mathlib.Omega.{arith}
