-- ===== src/Middleware.antt =====
-- internal/middleware: what stands before the handlers.
pub mod Guard
pub mod Limits
pub mod Headers
pub mod Cors
pub mod Laws
pub mod Bearer
mod Tests
mod BearerTests
