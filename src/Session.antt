-- ===== src/Session.antt =====
-- The package internal/session without its registry: one browser session, its goroutines and the
-- calls that they make on the browser connection and on the console.
mod Types
pub mod Results
pub mod Log
pub mod Audit
pub mod Close
pub mod Loops
pub mod Step
pub mod Invariant
pub mod Rounds
pub mod Ending
pub mod Forwarding
pub mod Verdicts
pub mod Reports
pub mod Kept
pub mod Due
pub mod Progress
pub mod Quiet
pub mod Delivery
pub mod Told
pub mod Records
pub mod Accounted
mod Tests
pub use Types.*
