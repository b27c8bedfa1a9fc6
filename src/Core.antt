-- ===== src/Core.antt =====
-- src/client_core.rs: the protocol state machine that both client drivers share.
pub mod State
pub mod Operations
pub mod Config
pub mod Frames
pub mod Process
pub mod Policy
pub mod Prepare
mod Examples
