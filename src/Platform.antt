-- ===== src/Platform.antt =====
-- internal/platform: the configuration and its validation.
pub mod Config
pub mod Validate
pub mod Database
pub mod Migrate
