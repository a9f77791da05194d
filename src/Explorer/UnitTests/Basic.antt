-- ===== src/Explorer/UnitTests/Basic.antt =====
-- explorer/src/lib.rs, `mod tests`: registration, the ring buffer and its capacity.
use octraban_contract.Common.{◌==◌, str_eq, length, ⊤}
use octraban_contract.Host.Script.{◌>>=◌, ◌>>◌, client, run_call, assert}
use octraban_contract.Explorer.Contract.{Call}
use octraban_contract.Explorer.Client.{ExplorerScript}
use octraban_contract.Explorer.UnitTests.Setup.{
  admin, stranger, event_input, make_meta, times, opened, submitted, seq_at, is_number,
}

abbrev pub test_init_and_register : ExplorerScript ⊤
test_init_and_register = do
  opened 0
  run_call (Call.register_contract admin 1 (make_meta "StellarSwap" admin))
  fetched ← client (Call.get_contract 1)
  assert (str_eq fetched.name "StellarSwap")

abbrev pub test_register_unauthorized : ExplorerScript ⊤
test_register_unauthorized = do
  opened 0
  run_call (Call.register_contract stranger 50 (make_meta "UnauthorizedReg" stranger))

abbrev pub test_submit_and_get_event : ExplorerScript ⊤
test_submit_and_get_event = do
  opened 0
  run_call
      (Call.submit_event admin (event_input 2 "swap" 4521983 "Address GABC... swapped 100 USDC"))
  count ← client Call.event_count
  assert (count == 1)
  ev ← client (Call.get_event 0)
  assert (ev.ledger == 4521983)

abbrev pub test_cursor_pagination : ExplorerScript ⊤
test_cursor_pagination = do
  opened 0
  times 5 (submitted admin 3)
  count ← client Call.event_count
  assert (count == 5)
  page1 ← client (Call.get_events 0 2)
  assert (length page1 == 2)
  assert (is_number (seq_at page1 0) 0)
  assert (is_number (seq_at page1 1) 1)
  page2 ← client (Call.get_events 2 2)
  assert (length page2 == 2)
  assert (is_number (seq_at page2 0) 2)
  page3 ← client (Call.get_events 4 2)
  assert (length page3 == 1)
  assert (is_number (seq_at page3 0) 4)
  empty ← client (Call.get_events 10 5)
  assert (length empty == 0)

abbrev pub test_double_init_panics : ExplorerScript ⊤
test_double_init_panics = do opened 0; opened 0

abbrev pub test_ring_buffer_wraps_correctly : ExplorerScript ⊤
test_ring_buffer_wraps_correctly = do
  opened 5
  times 5 (submitted admin 10)
  count ← client Call.event_count
  assert (count == 5)
  times 10 (submitted admin 10)
  count' ← client Call.event_count
  assert (count' == 5)
  evs ← client (Call.get_events 0 20)
  assert (length evs == 5)
  assert (is_number (seq_at evs 0) 10)
  assert (is_number (seq_at evs 4) 14)

abbrev pub test_storage_utilisation : ExplorerScript ⊤
test_storage_utilisation = do
  opened 1000
  room ← client Call.storage_utilisation
  assert (room.0 == 0)
  assert (room.1 == 1000)

abbrev pub test_set_max_events_below_floor_rejected : ExplorerScript ⊤
test_set_max_events_below_floor_rejected = do opened 0; run_call (Call.set_max_events admin 999)

abbrev pub test_set_max_events_accepted : ExplorerScript ⊤
test_set_max_events_accepted = do
  opened 0
  run_call (Call.set_max_events admin 1000)
  room ← client Call.storage_utilisation
  assert (room.1 == 1000)
