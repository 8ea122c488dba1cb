-- ===== src/Prompt/Diff.antt =====
-- internal/service/prompt/diff.go: two versions of a prompt side by side.
pub mod Fields
pub mod Order
pub mod Reported
pub mod Laws
pub mod Tests
pub mod Body
pub mod Target
unfoldable pub use Fields.*
unfoldable pub use Body.*
unfoldable pub use Target.*
