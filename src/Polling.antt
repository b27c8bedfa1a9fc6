-- ===== src/Polling.antt =====
-- src/polling_client.rs: the driver of the client core that the application polls once per frame.
pub mod State
pub mod Outbound
pub mod Close
pub mod Drive
pub mod Rules
pub mod Calls
pub mod Ownership
pub mod Bounds
pub mod Session
pub mod Budget
pub mod Deadline
mod Examples
