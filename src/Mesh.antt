-- ===== src/Mesh.antt =====
-- src/mesh.rs: the optional tracker of the peer-to-peer session.
pub mod Session
pub mod Changes
pub mod Liveness
mod Examples
