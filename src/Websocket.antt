-- ===== src/Websocket.antt =====
-- The package internal/websocket: the frames and messages between the browser and the gateway.
mod Types
pub mod Errors
pub mod Conn
pub mod Protocol
pub mod Server
pub mod Replies
pub use Types.*
