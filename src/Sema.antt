-- ===== src/Sema.antt =====
-- src/gnr/sema: the enums, the property formats and the message types, as pydantic validates them.
pub mod Enums
pub mod Regex
pub mod Format
pub mod GNode
pub mod Messages
pub mod Casing
pub mod Codec
pub mod Roundtrip
pub mod PositionPoint
pub mod Fields
pub mod Runtime
pub mod Wire
