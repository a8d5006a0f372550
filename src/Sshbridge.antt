-- ===== src/Sshbridge.antt =====
-- The package internal/sshbridge: the SSH connection to a console.
mod Types
pub mod Client
pub mod Remote
pub mod Resources
pub mod Requests
pub mod Sizes
pub mod Closing
mod Tests
pub use Types.*
