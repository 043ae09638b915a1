-- ===== src/Service.antt =====
-- internal/service: the use cases.
pub mod Token
pub mod Csrf
pub mod Health
pub mod Counter
pub mod User
