-- ===== src/Text.antt =====
-- Texts: the operations of Go's `strings` package that the code calls, with their laws.
mod Lower
mod Defs
mod Decimal
pub mod Numbers
pub mod Laws
unfoldable pub use Defs.*
unfoldable pub use Decimal.*
