-- ===== src/Common/Text.antt =====
-- Rust's `str` and `String` as the list of their characters' code points, with the methods of
-- the standard library that the programs call.
mod Number
mod Utf8
mod Laws
pub use Laws.{
  IsFree, IsSolid, rsplit_once-free, rsplit_once-append, split-free, split-join, split_once-append,
  splitn-three, trim_solid,
}
unfoldable pub use Laws.{join}
pub use Number.{parse_u16-show_nat, parse_u16-lt, show_nat-All, show_nat-ne-nil}
pub use Number.{ParseIntError}
unfoldable pub use Number.{parse_u16, show_parse_error, show_digits, show_nat}
pub use Utf8.{IsScalar, as_bytes-injective, as_bytes-append}
unfoldable pub use Utf8.{as_bytes}
unfoldable pub use Defs.{
  split, split_once, rsplit_once, splitn, trim_start, trim_end, trim, is_whitespace, starts_with,
  to_ascii_lowercase, eq_ignore_ascii_case,
}
pub use Defs.{Text, codes, is_empty}
mod Defs
