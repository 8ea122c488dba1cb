-- ===== src/Http.antt =====
-- internal/server/http: what the handlers answer.
pub mod Response
pub mod Query
pub mod Prompts
pub mod Laws
pub mod Listing
pub mod Signin
pub mod SigninLaws
pub mod Router
mod Tests
