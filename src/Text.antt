-- ===== src/Text.antt =====
-- Go strings, as the sequences of bytes that they are, and the functions of the packages `strings`,
-- `sort` and `fmt` that the program calls.
mod Core
mod Trim
mod Split
mod Decimal
pub mod Order
unfoldable pub use Core.*
unfoldable pub use Trim.*
unfoldable pub use Split.*
unfoldable pub use Decimal.*
unfoldable pub use Order.{str_leb, sort_strings}
