-- ===== src/WebRtc.antt =====
-- src/webrtc.rs: the controller that drives the connections between players.
pub mod Controller
pub mod Turns
pub mod Rules
pub mod Channels
pub mod Reports
pub mod Relay
pub mod Drain
pub mod Plan
pub mod Agreement
mod Examples
