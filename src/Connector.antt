-- ===== src/Connector.antt =====
-- src/connector/mod.rs, run_connector: one function for each event of the loop. A response that is
-- not closed stays open while an event is handled.
pub mod Types
pub mod Retry
pub mod Dialing
pub mod Commands
pub mod Invariant
pub mod Waking
pub mod System
mod Examples
