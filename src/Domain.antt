-- ===== src/Domain.antt =====
-- internal/domain: the entities, the errors, and the options of the repositories.
mod Values
mod Errors
mod Entities
unfoldable pub use Values.*
unfoldable pub use Errors.*
unfoldable pub use Entities.*
