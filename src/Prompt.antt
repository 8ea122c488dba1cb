-- ===== src/Prompt.antt =====
-- internal/service/prompt: the service that the handlers call.
mod Inputs
pub mod Calls
pub mod Invariant
mod Manage
mod Create
mod Versions
mod Paging
mod Stats
pub mod Diff
pub mod Run
pub mod Laws
pub mod Tests
pub mod UpdateTests
mod StatsTests
unfoldable pub use Inputs.*
unfoldable pub use Manage.*
unfoldable pub use Create.*
unfoldable pub use Versions.*
unfoldable pub use Paging.*
unfoldable pub use Stats.*
