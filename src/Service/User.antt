-- ===== src/Service/User.antt =====
-- internal/service/user: accounts, credentials and sessions. A service method first asks whether
-- the context is done, and wraps what a repository returns in `apperr.Internal`.
pub mod Tokens
pub mod Credentials
pub mod Session
pub mod Account
