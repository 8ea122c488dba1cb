-- ===== src/Repository/Sql/Laws.antt =====
-- The statements with placeholders do what the repository is modelled to do.
pub mod Builder
pub mod Refines
pub mod Selects
pub mod Statements
