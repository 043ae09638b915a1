-- ===== src/Repository.antt =====
-- internal/repository: the connection that a context carries, the repositories over GORM, and the
-- transaction manager.
pub mod Context
pub mod User
pub mod RefreshToken
pub mod Tx
pub mod Counter
