-- ===== src/Repository.antt =====
-- internal/infra/repository/sql.go: the repositories over the tables.
pub mod Users
pub mod Identities
pub mod Prompts
pub mod Versions
pub mod Audits
pub mod Executions
pub mod Paging
pub mod Quiet
pub mod Search
pub mod Sql
mod Tests
