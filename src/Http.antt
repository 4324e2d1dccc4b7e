-- ===== src/Http.antt =====
-- internal/httpapi: the HTTP interface. What a route answers (Replies), the handlers (Handlers), and the
-- router with its two guards (Router).
pub mod Replies
pub mod Handlers
pub mod Router
pub mod Isolation
pub mod Limits
mod Tests
