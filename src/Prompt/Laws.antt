-- ===== src/Prompt/Laws.antt =====
-- What the methods of the prompt service do, seen through the service.
pub mod Visibility
pub mod Pages
pub mod Creation
pub mod Revival
pub mod Lifecycle
pub mod Activation
pub mod Versions
pub mod Update
pub mod Stats
