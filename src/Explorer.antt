-- ===== src/Explorer.antt =====
-- explorer/src/lib.rs: the registry of contract metadata and the ring buffer of decoded events.
pub mod Types
pub mod Admin
pub mod Registry
pub mod Ring
pub mod Contract
pub mod View
pub mod Spec
pub mod Refine
pub mod Failures
pub mod History
pub mod Safety
pub mod Replay
pub mod Versions
pub mod Leases
pub mod Client
pub mod Harness
pub mod UnitTests
mod Tests
