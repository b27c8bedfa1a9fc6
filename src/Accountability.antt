-- ===== src/Accountability.antt =====
-- src/accountability.rs: the stateful validator of server-stamped relay delivery.
pub mod State
pub mod Stream
pub mod Snapshot
pub mod Retire
pub mod Lifecycle
pub mod Report
pub mod GameData
pub mod Frame
pub mod Ledger
mod Examples
