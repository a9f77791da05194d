-- ===== src/Explorer/Safety.antt =====
-- Who may change what, over every host and every sequence of invocations.
pub mod Reads
pub mod Authority
pub mod Handover
pub mod Pausing
