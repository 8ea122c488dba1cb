-- ===== src/Repository/Sql.antt =====
-- The statements that internal/infra/repository/sql.go builds, as text with placeholders.
pub mod Dialect
pub mod Statements
pub mod Meaning
pub mod Selects
pub mod Laws
mod Tests
