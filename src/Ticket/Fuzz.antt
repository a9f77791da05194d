-- ===== src/Ticket/Fuzz.antt =====
-- ticket/fuzz/fuzz_targets: the fuzz targets of the ticket contract as functions of the fuzzer's
-- bytes. `Address::generate` gives addresses that differ; `mock_all_auths` has every address
-- authorise every call.
pub mod Targets
pub mod Passing
