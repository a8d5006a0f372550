-- ===== src/Config.antt =====
-- The package internal/config: which configurations the gateway runs with.
pub mod Types
pub mod Env
pub mod Defaults
pub mod Validate
pub mod Usable
pub mod Resolve
pub mod Resolved
pub mod Load
pub mod Precedence
pub mod Tests
