-- ===== src/Handler.antt =====
-- internal/api/handler.
pub mod Respond
pub mod User
pub mod Health
pub mod Resource
