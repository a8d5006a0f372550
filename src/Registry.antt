-- ===== src/Registry.antt =====
-- The registry of sessions in internal/session/manager.go. Sessions are kept in a store, since the
-- goroutines hold pointers to them: a pointer is a position in `objects`, and the map of the registry
-- leads from identifiers to pointers.
mod Types
pub mod Ids
pub mod Start
pub mod Step
pub mod Projected
pub mod Told
pub mod Capacity
pub mod Shutdown
pub mod Links
pub mod Roster
pub mod Tests
unfoldable pub use Types.*
