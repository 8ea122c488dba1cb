-- ===== src/Http/Prompts.antt =====
-- internal/server/http/prompt_handler.go
pub mod Requests
pub mod Errors
pub mod Handlers
