-- ===== src/Auth.antt =====
-- internal/service/auth and pkg/auth: sign-in by password, by refresh token and by GitHub.
pub mod Library
pub mod Service
pub mod Tokens
pub mod State
pub mod GitHub
pub mod Session
pub mod Callback
pub mod Seed
pub mod Laws
pub mod Tests
