-- ===== src/Boot.antt =====
-- From the start of the program to its end: internal/infra, internal/app, pkg/logger and cmd/server.
pub mod Process
pub mod Resources
pub mod Initialize
pub mod Program
pub mod Laws
mod Tests
