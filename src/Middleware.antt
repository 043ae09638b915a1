-- ===== src/Middleware.antt =====
-- internal/api/middleware.
pub mod Chain
pub mod RateLimit
pub mod Auth
pub mod RequestId
