-- ===== src/Anthropic.antt =====
-- internal/handlers/anthropic.go: the Messages interface of Anthropic over chat completions.
pub mod Stream
pub mod Request
pub mod Captured
pub mod Handler
mod Tests
