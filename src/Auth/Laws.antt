-- ===== src/Auth/Laws.antt =====
-- Who is signed in, and by what.
pub mod Entry
pub mod State
pub mod Emails
pub mod Success
pub mod Issued
pub mod Seed
pub mod Vouched
pub mod Callback
