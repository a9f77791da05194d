-- ===== src/Explorer/UnitTests/Handover.antt =====
-- explorer/src/lib.rs, `mod tests`: the two-step handover and pausing.
use octraban_contract.Common.{[], ◌∷◌, ◌==◌, ⊤}
use octraban_contract.Host.Script.{◌>>=◌, ◌>>◌, client, run_call, all_events, assert}
use octraban_contract.Explorer.Types.{Address, Val, event_version}
use octraban_contract.Explorer.Contract.{Call}
use octraban_contract.Explorer.Client.{ExplorerScript}
use octraban_contract.Explorer.UnitTests.Setup.{
  admin, new_admin, attacker, stranger, opened, ping, is_event, event_from_end,
}

-- `client.transfer_admin(&admin, &to)` on a contract just initialised.
abbrev nominated : Address → ExplorerScript ⊤
nominated to = do opened 0; run_call (Call.transfer_admin admin to)

abbrev one_event : ExplorerScript ⊤
one_event = do count ← client Call.event_count; assert (count == 1)

abbrev pub test_transfer_admin_emits_adm_nom_event : ExplorerScript ⊤
test_transfer_admin_emits_adm_nom_event = do
  nominated new_admin
  es ← all_events
  assert (
      is_event (event_from_end 1 es) (Val.symbol "adm_nom" ∷ Val.address admin ∷ [])
        (Val.u32 event_version ∷ Val.address new_admin ∷ []))

abbrev pub test_admin_retains_control_after_nomination : ExplorerScript ⊤
test_admin_retains_control_after_nomination = do
  nominated new_admin
  ping admin 9 "old admin still in control"
  one_event

abbrev pub test_nominee_cannot_act_before_accepting : ExplorerScript ⊤
test_nominee_cannot_act_before_accepting = do
  nominated new_admin
  ping new_admin 10 "nominee jumps the gun"

abbrev pub test_transfer_admin_unauthorized : ExplorerScript ⊤
test_transfer_admin_unauthorized = do opened 0; run_call (Call.transfer_admin attacker new_admin)

abbrev pub test_accept_admin_emits_adm_acc_event : ExplorerScript ⊤
test_accept_admin_emits_adm_acc_event = do
  nominated new_admin
  run_call (Call.accept_admin new_admin)
  es ← all_events
  assert (
      is_event (event_from_end 1 es) (Val.symbol "adm_acc" ∷ Val.address new_admin ∷ [])
        (Val.u32 event_version ∷ []))

abbrev pub test_accept_admin_promotes_new_admin : ExplorerScript ⊤
test_accept_admin_promotes_new_admin = do
  nominated new_admin
  run_call (Call.accept_admin new_admin)
  ping new_admin 11 "new admin test"
  one_event

abbrev pub test_old_admin_loses_access_after_accept : ExplorerScript ⊤
test_old_admin_loses_access_after_accept = do
  nominated new_admin
  run_call (Call.accept_admin new_admin)
  ping admin 12 "stale admin attempt"

abbrev pub test_only_pending_admin_can_accept : ExplorerScript ⊤
test_only_pending_admin_can_accept = do nominated new_admin; run_call (Call.accept_admin attacker)

abbrev pub test_accept_admin_without_pending_panics : ExplorerScript ⊤
test_accept_admin_without_pending_panics = do opened 0; run_call (Call.accept_admin stranger)

abbrev pub test_cancel_admin_transfer_emits_adm_cncl_event : ExplorerScript ⊤
test_cancel_admin_transfer_emits_adm_cncl_event = do
  nominated new_admin
  run_call (Call.cancel_admin_transfer admin)
  es ← all_events
  assert (
      is_event (event_from_end 1 es) (Val.symbol "adm_cncl" ∷ Val.address admin ∷ [])
        (Val.u32 event_version ∷ []))

abbrev pub test_current_admin_can_cancel_pending_transfer : ExplorerScript ⊤
test_current_admin_can_cancel_pending_transfer = do
  nominated new_admin
  run_call (Call.cancel_admin_transfer admin)
  ping admin 13 "admin after cancel"
  one_event

abbrev pub test_accept_admin_after_cancel_panics : ExplorerScript ⊤
test_accept_admin_after_cancel_panics = do
  nominated new_admin
  run_call (Call.cancel_admin_transfer admin)
  run_call (Call.accept_admin new_admin)

abbrev pub test_cancel_admin_transfer_unauthorized : ExplorerScript ⊤
test_cancel_admin_transfer_unauthorized = do
  nominated new_admin
  run_call (Call.cancel_admin_transfer attacker)

abbrev pub test_cancel_admin_transfer_without_pending_panics : ExplorerScript ⊤
test_cancel_admin_transfer_without_pending_panics = do
  opened 0
  run_call (Call.cancel_admin_transfer admin)

abbrev pub test_transfer_admin_to_self_then_accept_is_noop : ExplorerScript ⊤
test_transfer_admin_to_self_then_accept_is_noop = do
  nominated admin
  run_call (Call.accept_admin admin)
  ping admin 14 "self transfer test"
  one_event

abbrev pub test_pause_and_unpause_emit_events : ExplorerScript ⊤
test_pause_and_unpause_emit_events = do
  opened 0
  run_call (Call.pause admin)
  es ← all_events
  assert (is_event (event_from_end 1 es) (Val.symbol "paused" ∷ []) (Val.u32 event_version ∷ []))
  run_call (Call.unpause admin)
  es' ← all_events
  assert (is_event (event_from_end 1 es') (Val.symbol "unpaused" ∷ []) (Val.u32 event_version ∷ []))
