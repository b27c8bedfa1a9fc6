-- ===== src/Protocol.antt =====
-- src/protocol.rs: the wire types. A UUID is the 128-bit number that its bytes spell, a machine word
-- a natural number, and a JSON value (serde_json) the parameter `V`.
pub mod Delivery
pub mod ErrorCodes
pub mod Types
pub mod Payloads
pub mod Messages
pub mod Binary
mod Examples
