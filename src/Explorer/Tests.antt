-- ===== src/Explorer/Tests.antt =====
-- The explorer on a concrete host, and the theorems at concrete inputs.
mod Model
mod Runs
mod RingWitnesses
mod EventWitnesses
mod CallWitnesses
mod RegistryWitnesses
mod Lifetimes
