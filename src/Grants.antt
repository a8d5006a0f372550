-- ===== src/Grants.antt =====
-- The package internal/grants: validation of a terminal grant by the backend.
mod Types
pub mod Client
pub mod Address
pub mod Sound
mod Tests
pub use Types.*
