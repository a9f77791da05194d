-- ===== src/Lib.antt =====
-- Verification of the octraban contracts, two Soroban smart contracts.
--
-- The explorer contract (explorer/src/lib.rs) keeps a registry of contract metadata with all its
-- versions, and a ring buffer of decoded events. An admin, handed over in two steps, guards the
-- writes, and can pause them. The ticket contract (ticket/src/lib.rs) issues the tickets of one
-- event, lets each be resold once under a price ceiling, and uses them up at the door. The two do
-- not call each other; both stand on the Soroban host, which stores their entries, extends their
-- time to live, publishes events, checks authorisation and keeps nothing of an invocation that
-- fails.
--
-- Common holds Booleans, comparisons, integers and list lemmas; Common/Bytes reads integers from
-- bytes.
--
-- Host is the host as the contracts use it: Host/Interface the record of its operations with the
-- documented laws, a parameter of every definition and theorem; Host/Monad and Host/Actions an
-- invocation as an action that ends in a value, a contract error, a trap of the host or, on too
-- little fuel, not at all; an `Invocation` carries who has authorised it, its ledger and which code
-- was uploaded before it, and `update_current_contract_wasm` refuses code that was not; Host/Observe
-- what an outcome shows of the state; Host/Model a host made of functions, for the examples.
-- Host/Script has programs that call a contract through its generated client (`client.f()`,
-- `client.try_f()`), read the published events and assert; a failed call without `try_` fails the
-- program, and each call keeps its writes only if it ends well.
--
-- Explorer is explorer/src/lib.rs. Explorer/Types has its types, keys and constants; Explorer/Admin
-- `init`, `transfer_admin`, `accept_admin`, `cancel_admin_transfer`, `pause`, `unpause`, `upgrade`
-- and `is_paused`; Explorer/Registry `register_contract`, `update_contract`, `deregister_contract`,
-- `get_contract`, `get_contract_version` and `get_latest_contract`; Explorer/Ring `set_max_events`,
-- `submit_event`, `get_event`, `get_events`, `event_count` and `storage_utilisation`;
-- Explorer/Contract an invocation of any of them, and sequences of invocations. Explorer/View is
-- what can be seen of the storage, Explorer/Spec what each entry point promises of it, and
-- Explorer/Refine relates the code to these promises. On the promises stand Explorer/History (the
-- ring buffer against the list of all submitted events), Explorer/Versions (the registry),
-- Explorer/Safety (authority, handover, pausing), Explorer/Leases (times to live), Explorer/Failures
-- (errors and traps, against docs/INTERFACE.md) and Explorer/Replay (the published events, against
-- docs/EVENTS.md). Explorer/Client is the client; Explorer/Harness is explorer/tests/kani.rs,
-- proptest.rs and fuzz.rs, Explorer/UnitTests the `mod tests` of explorer/src/lib.rs, both as
-- scripts over any host, and the tests of the storage lifetimes on a host with a clock.
-- Explorer/Tests has the examples.
--
-- Ticket is ticket/src/lib.rs, in the same way: Ticket/Types, Ticket/Calls (all entry points),
-- Ticket/Contract, Ticket/View, Ticket/Spec, Ticket/Refine; on them Ticket/Changes, Ticket/Supply
-- (the numbering), Ticket/Lifecycle (one ticket through time), Ticket/Ownership (how it changes
-- hands), Ticket/Terms (the terms of the sale), Ticket/Failures (errors and traps) and Ticket/Replay
-- (the published events). Ticket/Client is the client and Ticket/Fuzz the fuzz targets of
-- ticket/fuzz/fuzz_targets, as functions of their bytes; Ticket/Tests.
--
-- Integers: u32 and u64 values are natural numbers. The additions that the code makes are those of
-- overflow-checks = true, a trap at 2 ^ 32 or 2 ^ 64 (`checked_add`); a remainder by zero traps
-- (`checked_rem`). `saturating_sub` is the subtraction that stops at 0. Prices (i128) are only
-- compared, so they are integers without a width.
--
-- Fuel: the loop of `get_events` runs on `total - start` steps, as many as there are numbers left to
-- look at. That is enough: the specification that `get_events` refines always ends.
--
-- Not modelled: the host itself (an external library), its archival and restoration of entries whose
-- time to live has ended, the failures by its resource limits, error discriminants, scripts; what
-- other code does after a successful `upgrade`: a sequence of invocations (`run`) is one of this
-- code only; of the tests the other files of explorer/tests and ticket/src/test.rs, which run at
-- fixed inputs or measure the host.
pub mod Common
pub mod Host
pub mod Explorer
pub mod Ticket
