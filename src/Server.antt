-- ===== src/Server.antt =====
-- The package internal/httpserver.
pub mod Mux
pub mod Upgrade
pub mod Serve
pub mod Configured
pub mod Told
pub mod Socket
mod Tests
