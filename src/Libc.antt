-- ===== src/Libc.antt =====
-- The parts of the C library that the programs use on texts: a text is its bytes, without the
-- NUL that ends it.
mod Strings
mod Numbers
mod Files
mod Tokens
mod Decimal
mod Lines
mod Scan
unfoldable pub use Strings.*
unfoldable pub use Numbers.*
unfoldable pub use Files.*
unfoldable pub use Tokens.*
unfoldable pub use Decimal.*
unfoldable pub use Lines.*
unfoldable pub use Scan.*
