-- ===== src/Explorer/UnitTests/Diagnostics.antt =====
-- explorer/src/lib.rs, `mod tests`: the events that the contract publishes.
use octraban_contract.Common.{ℕ, [], ◌∷◌, ◌==◌, length, get_elem?, ⊤}
use octraban_contract.Host.Script.{◌>>=◌, ◌>>◌, client, run_call, all_events, assert}
use octraban_contract.Explorer.Types.{Val, event_version}
use octraban_contract.Explorer.Contract.{Call}
use octraban_contract.Explorer.Client.{ExplorerScript}
use octraban_contract.Explorer.UnitTests.Setup.{
  admin, registrant, event_input, make_meta, times, opened, submitted, is_event, event_from_end,
}

module _ (n : ℕ) where
  abbrev pub test_register_emits_c_reg_event : ExplorerScript ⊤
  test_register_emits_c_reg_event = do
    opened 0
    run_call (Call.register_contract admin 20 (make_meta "TestDex" admin))
    es ← all_events
    assert (
        is_event (event_from_end 1 es) (Val.symbol "c_reg" ∷ Val.bytes32 20 ∷ []) (
          Val.u32 event_version
          ∷ Val.address admin
          ∷ Val.u32 1
          ∷ Val.u32 n
          ∷ Val.text "TestDex"
          ∷ []))

  abbrev pub test_update_emits_c_abiu_and_c_upd_events : ExplorerScript ⊤
  test_update_emits_c_abiu_and_c_upd_events = do
    opened 0
    let meta_v0 = make_meta "Dex" admin
    run_call (Call.register_contract admin 21 meta_v0)
    run_call (Call.update_contract admin 21 (record meta_v0 { version = 2; abi_version = 1 }))
    es ← all_events
    assert (
        is_event (event_from_end 2 es) (Val.symbol "c_abiu" ∷ Val.bytes32 21 ∷ [])
          (Val.u32 event_version ∷ Val.u32 0 ∷ Val.u32 1 ∷ Val.u32 n ∷ []))
    assert (
        is_event (event_from_end 1 es) (Val.symbol "c_upd" ∷ Val.bytes32 21 ∷ [])
          (Val.u32 event_version ∷ Val.address admin ∷ Val.u32 1 ∷ Val.u32 2 ∷ Val.u32 n ∷ []))

-- The owner, who is not the admin, registers the contract itself.
abbrev pub test_update_contract_by_owner : ExplorerScript ⊤
test_update_contract_by_owner = do
  opened 0
  let meta_v0 = make_meta "MyContract" registrant
  run_call (Call.register_contract registrant 25 meta_v0)
  run_call (Call.update_contract registrant 25 (record meta_v0 { version = 2; abi_version = 1 }))
  updated ← client (Call.get_contract 25)
  assert (updated.version == 2)
  assert (updated.abi_version == 1)

abbrev pub test_submit_emits_ev_sub_and_decoded_events : ExplorerScript ⊤
test_submit_emits_ev_sub_and_decoded_events = do
  opened 0
  submitted admin 22
  es ← all_events
  assert (length es == 2)
  assert (
      is_event (get_elem? es 0) (Val.symbol "ev_sub" ∷ Val.bytes32 22 ∷ Val.symbol "swap" ∷ [])
        (Val.u32 event_version ∷ Val.u64 0 ∷ Val.u32 100 ∷ []))
  assert (
      is_event (get_elem? es 1) (Val.symbol "decoded" ∷ Val.bytes32 22 ∷ Val.symbol "swap" ∷ [])
        (Val.u32 event_version ∷ Val.text "test" ∷ []))

abbrev pub test_cap_hit_event_emitted_on_eviction : ExplorerScript ⊤
test_cap_hit_event_emitted_on_eviction = do
  opened 5
  times 5 (submitted admin 23)
  submitted admin 23
  es ← all_events
  assert (
      is_event (event_from_end 2 es) (Val.symbol "cap_hit" ∷ [])
        (Val.u32 event_version ∷ Val.u64 0 ∷ Val.u64 5 ∷ []))

abbrev pub test_submit_event_rejects_empty_function_name : ExplorerScript ⊤
test_submit_event_rejects_empty_function_name = do
  opened 0
  run_call (Call.submit_event admin (event_input 24 "" 100 "test"))
