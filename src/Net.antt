-- ===== src/Net.antt =====
-- src/net: the binary protocol between the orchestrator and the load generators.
pub mod Bytes
pub mod Utf8
pub mod Value
pub mod Ser
pub mod De
pub mod Encoding
pub mod Serialized
pub mod Deserialized
pub mod ZeroWidth
pub mod Protocol
pub mod Framer
