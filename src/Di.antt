-- ===== src/Di.antt =====
-- internal/di/container.go: from the configuration to the services, and the container's life cycle.
-- Opening and closing what the container owns are parameters; logging is left out.
pub mod Wiring
pub mod Lifecycle
pub mod Janitor
