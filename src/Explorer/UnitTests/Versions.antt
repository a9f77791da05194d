-- ===== src/Explorer/UnitTests/Versions.antt =====
-- explorer/src/lib.rs, `mod tests`: ABI versions and deregistration.
use octraban_contract.Common.{
  ℕ, Bool, true, false, not, Option, none, some, [], ◌∷◌, ◌==◌, str_eq, is_some, ⊤,
}
use octraban_contract.Host.Script.{
  ◌>>=◌, ◌>>◌, finish, fail, client, try, run_call, all_events, assert, Tried, raised,
}
use octraban_contract.Explorer.Types.{Error, not_found, ContractMeta, Val, event_version}
use octraban_contract.Explorer.Contract.{Call}
use octraban_contract.Explorer.Client.{ExplorerScript}
use octraban_contract.Explorer.UnitTests.Setup.{
  admin, stranger, registrant, make_meta, opened, is_event, event_from_end,
}

-- `.unwrap()` in a test.
abbrev unwrapped : Option ContractMeta → ExplorerScript ContractMeta
unwrapped none = fail
unwrapped (some m) = finish m

abbrev pub test_register_sets_version_zero : ExplorerScript ⊤
test_register_sets_version_zero = do
  opened 0
  run_call (Call.register_contract admin 30 (record (make_meta "Test" admin) { abi_version = 99 }))
  fetched ← client (Call.get_contract 30)
  assert (fetched.abi_version == 0)
  found ← client (Call.get_contract_version 30 0)
  v0 ← unwrapped found
  assert (v0.abi_version == 0)
  assert (str_eq v0.name "Test")

abbrev pub test_sequential_updates_increment_abi_version : ExplorerScript ⊤
test_sequential_updates_increment_abi_version = do
  opened 0
  let meta_v0 = make_meta "App" admin
  run_call (Call.register_contract admin 31 meta_v0)
  run_call (Call.update_contract admin 31 (record meta_v0 { abi_version = 1 }))
  after_first ← client (Call.get_contract 31)
  assert (after_first.abi_version == 1)
  run_call (Call.update_contract admin 31 (record meta_v0 { abi_version = 2 }))
  after_second ← client (Call.get_contract 31)
  assert (after_second.abi_version == 2)
  v0 ← client (Call.get_contract_version 31 0)
  assert (is_some v0)
  v1 ← client (Call.get_contract_version 31 1)
  assert (is_some v1)
  v2 ← client (Call.get_contract_version 31 2)
  assert (is_some v2)
  v3 ← client (Call.get_contract_version 31 3)
  assert (not (is_some v3))

abbrev pub test_stale_write_rejected : ExplorerScript ⊤
test_stale_write_rejected = do
  opened 0
  let meta_v0 = make_meta "X" admin
  run_call (Call.register_contract admin 32 meta_v0)
  run_call (Call.update_contract admin 32 (record meta_v0 { abi_version = 1 }))
  run_call (Call.update_contract admin 32 (record meta_v0 { abi_version = 1 }))

-- `assert_eq!(.., Err(Ok(Error::NotFound)))`.
abbrev is_not_found : {A : Type 0} → Tried Error A → Bool
is_not_found (raised not_found) = true
is_not_found _ = false

abbrev pub test_get_contract_not_found : ExplorerScript ⊤
test_get_contract_not_found = do
  opened 0
  result ← try (Call.get_contract 33)
  assert (is_not_found result)

abbrev pub test_get_latest_contract_returns_none_for_missing : ExplorerScript ⊤
test_get_latest_contract_returns_none_for_missing = do
  opened 0
  latest ← client (Call.get_latest_contract 33)
  assert (not (is_some latest))
  version ← client (Call.get_contract_version 33 0)
  assert (not (is_some version))

abbrev pub test_admin_deregisters_contract : ExplorerScript ⊤
test_admin_deregisters_contract = do
  opened 0
  run_call (Call.register_contract admin 40 (make_meta "ToRemove" admin))
  before ← client (Call.get_latest_contract 40)
  assert (is_some before)
  run_call (Call.deregister_contract admin 40)
  after ← client (Call.get_latest_contract 40)
  assert (not (is_some after))

abbrev pub test_registrant_deregisters_contract : ExplorerScript ⊤
test_registrant_deregisters_contract = do
  opened 0
  run_call (Call.register_contract admin 41 (make_meta "RegOwned" registrant))
  run_call (Call.deregister_contract registrant 41)
  after ← client (Call.get_latest_contract 41)
  assert (not (is_some after))

abbrev pub test_stranger_cannot_deregister : ExplorerScript ⊤
test_stranger_cannot_deregister = do
  opened 0
  run_call (Call.register_contract admin 42 (make_meta "Secure" registrant))
  run_call (Call.deregister_contract stranger 42)

abbrev pub test_deregister_missing_id_panics : ExplorerScript ⊤
test_deregister_missing_id_panics = do opened 0; run_call (Call.deregister_contract admin 99)

abbrev pub test_deregister_emits_c_dereg_event : ℕ → ExplorerScript ⊤
test_deregister_emits_c_dereg_event n = do
  opened 0
  run_call (Call.register_contract admin 43 (make_meta "EventTest" admin))
  run_call (Call.deregister_contract admin 43)
  es ← all_events
  assert (
      is_event (event_from_end 1 es) (Val.symbol "c_dereg" ∷ Val.bytes32 43 ∷ [])
        (Val.u32 event_version ∷ Val.address admin ∷ Val.u32 n ∷ []))
