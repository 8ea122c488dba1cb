-- ===== src/Http/Router.antt =====
-- internal/server/http/router.go: the table of routes, and what runs for a request.
pub mod Routes
pub mod Health
pub mod Serve
pub mod Decision
pub mod Laws
pub mod HealthLaws
mod Tests
