-- ===== src/Store.antt =====
-- The database behind internal/infra/repository, and the actions that run statements on it.
mod Tables
mod Statement
mod Like
pub mod Wildcards
pub mod Keeps
pub mod Writes
pub mod Quiet
pub mod Inverse
unfoldable pub use Tables.*
unfoldable pub use Statement.*
unfoldable pub use Like.*
