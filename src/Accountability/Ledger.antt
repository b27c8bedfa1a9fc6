-- ===== src/Accountability/Ledger.antt =====
-- An independent account of a connection, to which src/accountability.rs is held: what a room's
-- messages said of each sequence number of each sender's epoch.
pub mod Defs
pub mod Closed
pub mod GameData
pub mod Record
pub mod Report
pub mod Lifecycle
pub mod Snapshot
pub mod Content
pub mod Run
