-- ===== src/Host.antt =====
-- The Soroban host as the contracts use it through `soroban_sdk::Env`. The host is not part of the
-- repository, so it is a parameter: a record of operations with the documented laws of its
-- storage, its leases (TTL) and its event log. How an invocation ends, and the actions of a handler, are
-- here too.
mod Monad
mod Interface
mod Actions
pub mod Observe
pub mod Model
pub mod Script
pub use Monad.*
pub use Interface.*
pub use Actions.*
