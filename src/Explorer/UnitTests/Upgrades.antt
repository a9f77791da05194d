-- ===== src/Explorer/UnitTests/Upgrades.antt =====
-- explorer/src/lib.rs, `mod tests`: upgrades.
use octraban_contract.Common.{ltb, length, ⊤}
use octraban_contract.Host.Script.{◌>>=◌, ◌>>◌, run_call, all_events, assert}
use octraban_contract.Explorer.Contract.{Call}
use octraban_contract.Explorer.Client.{ExplorerScript}
use octraban_contract.Explorer.UnitTests.Setup.{admin, new_admin, stranger, opened}

abbrev pub test_admin_can_upgrade : ExplorerScript ⊤
test_admin_can_upgrade = do opened 0; run_call (Call.upgrade admin 7)

abbrev pub test_non_admin_cannot_upgrade : ExplorerScript ⊤
test_non_admin_cannot_upgrade = do opened 0; run_call (Call.upgrade stranger 7)

abbrev pub test_upgrade_emits_event : ExplorerScript ⊤
test_upgrade_emits_event = do
  opened 0
  before ← all_events
  run_call (Call.upgrade admin 9)
  after ← all_events
  assert (ltb (length before) (length after))

abbrev pub test_admin_can_upgrade_after_transfer : ExplorerScript ⊤
test_admin_can_upgrade_after_transfer = do
  opened 0
  run_call (Call.transfer_admin admin new_admin)
  run_call (Call.accept_admin new_admin)
  run_call (Call.upgrade new_admin 11)

abbrev pub test_old_admin_cannot_upgrade_after_transfer : ExplorerScript ⊤
test_old_admin_cannot_upgrade_after_transfer = do
  opened 0
  run_call (Call.transfer_admin admin new_admin)
  run_call (Call.accept_admin new_admin)
  run_call (Call.upgrade admin 12)

abbrev pub test_upgrade_while_paused : ExplorerScript ⊤
test_upgrade_while_paused = do
  opened 0
  run_call (Call.pause admin)
  run_call (Call.upgrade admin 13)
