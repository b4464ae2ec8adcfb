-- ===== src/Text.antt =====
-- What the program calls of the packages `strings` and `unicode`, over texts as lists of characters. A
-- Go string whose bytes are no UTF-8 has no counterpart here.
mod Trim
mod Case
mod Search
mod Pad
pub mod Ascii
pub mod Decimal
unfoldable pub use Trim.*
unfoldable pub use Search.*
unfoldable pub use Pad.*
unfoldable pub use Case.*
