-- ===== src/Text.antt =====
-- `str` and `String` of the Rust standard library, as the source uses them: a text is its list of
-- code points. A slice at a position that `find` returned is modelled by the parts themselves.
mod Trim
mod Split
mod Decimal
pub use Trim.*
pub use Split.*
pub use Decimal.*
unfoldable pub use Trim.{
  is_whitespace, trim_start, trim_end, trim, strip_prefix, strip_suffix, starts_with, all_chars,
}
unfoldable pub use Split.{
  join, split_once, rsplit_once, find_char, contains_char, lines, split_on, drop_cr, end_lines,
  to_ascii_lowercase, replace_crlf,
}
unfoldable pub use Decimal.{to_decimal}
