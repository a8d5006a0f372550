-- ===== src/Json.antt =====
-- The part of Go's `encoding/json` that the gateway uses: values, `Unmarshal`, `Decoder` and
-- `Marshal` on the structs of the protocol. Texts are lists of bytes.
mod Value
pub mod Utf8
pub mod Lexical
pub mod Parse
pub mod Decode
pub mod Float
pub mod Encode
pub mod Runes
pub mod Encoded
pub mod Trimmed
pub use Value.*
