-- ===== src/Config.antt =====
-- internal/config/config.go
pub mod Settings
pub mod Defaults
pub mod Validate
pub mod Laws
pub mod Tests
