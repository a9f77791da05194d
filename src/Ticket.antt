-- ===== src/Ticket.antt =====
-- ticket/src/lib.rs: tickets of one event, minted, resold under a price cap and checked at the door.
pub mod Types
pub mod Calls
pub mod Contract
pub mod View
pub mod Spec
pub mod Refine
pub mod Changes
pub mod Supply
pub mod Failures
pub mod Terms
pub mod Replay
pub mod Lifecycle
pub mod Ownership
pub mod Client
pub mod Fuzz
mod Tests
