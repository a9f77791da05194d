-- ===== src/Explorer/Versions.antt =====
-- The registry and its history of ABI versions.
pub mod Frame
pub mod Invariant
pub mod Calls
