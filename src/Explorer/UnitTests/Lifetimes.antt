-- ===== src/Explorer/UnitTests/Lifetimes.antt =====
-- explorer/src/lib.rs, `mod tests`: storage lifetimes. These tests move the ledger of the test host
-- and read its times to live, so they are actions on a host with a clock.
use octraban_contract.Common.{ℕ, ◌+◌, ◌-◌, ◌<◌, ◌≡◌, true, not, none, ◌==◌, str_eq, ⊤, arith, ap}
use octraban_contract.Host.{
  done, Action, ◌>>=◌, ◌>>◌, Host, Invocation, Slot, Lease, lease_of, instance_slot,
  persistent_slot, instance_lease, entry_lease, trap_if,
}
use octraban_contract.Host.Script.{passes, mock_all_auths}
use octraban_contract.Explorer.Types.{
  Error, DataKey, admin as key_admin, paused, contract, event_log, Value, Published,
  instance_bump_amount, registry_bump_amount, event_bump_amount, event_lifetime_threshold,
  instance_lifetime_threshold,
}
use octraban_contract.Explorer.Admin
use octraban_contract.Explorer.Registry
use octraban_contract.Explorer.Ring
use octraban_contract.Explorer.View.{view}
use octraban_contract.Explorer.UnitTests.Setup.{blank, admin, make_meta, make_input}

module _ (h : Host Value Published)
    -- `env.ledger().with_mut(|li| li.sequence_number += k)`.
    (advance : ℕ → h.State → h.State) (n : ℕ) where
  abbrev ctx : Invocation
  ctx = mock_all_auths n

  abbrev pass_ledgers : ℕ → Action Error h.State ⊤
  pass_ledgers k s = done tt (advance k s)

  -- `assert_eq!(get_ttl(), expected)`.
  abbrev assert_ttl : Lease DataKey → ℕ → Action Error h.State ⊤
  assert_ttl l expected s = trap_if (not (h.ttl l s == expected)) s

  unfoldable pub test_init_extends_instance_ttl_to_bump_amount : Action Error h.State ⊤
  test_init_extends_instance_ttl_to_bump_amount = do
    Admin.init h admin 0
    assert_ttl instance_lease instance_bump_amount

  unfoldable pub test_instance_data_survives_past_min_floor_after_state_changing_call :
      Action Error h.State ⊤
  test_instance_data_survives_past_min_floor_after_state_changing_call = do
    Admin.init h admin 0
    pass_ledgers 20000
    Admin.pause h (mock_all_auths (n + 20000)) admin
    flag ← Admin.is_paused h
    trap_if (not flag)
    assert_ttl instance_lease instance_bump_amount

  unfoldable pub test_register_contract_extends_registry_entry_ttl : Action Error h.State ⊤
  test_register_contract_extends_registry_entry_ttl = do
    Admin.init h admin 0
    Registry.register_contract h ctx admin 60 (make_meta "TTLTest" admin)
    assert_ttl (entry_lease (contract 60)) registry_bump_amount

  unfoldable pub test_registry_entry_survives_past_min_floor_and_read_extends_it :
      Action Error h.State ⊤
  test_registry_entry_survives_past_min_floor_and_read_extends_it = do
    Admin.init h admin 0
    Registry.register_contract h ctx admin 61 (make_meta "TTLTest2" admin)
    pass_ledgers 20000
    fetched ← Registry.get_contract h 61
    trap_if (not (str_eq fetched.name "TTLTest2"))
    assert_ttl (entry_lease (contract 61)) registry_bump_amount

  unfoldable pub test_submit_event_extends_event_slot_ttl : Action Error h.State ⊤
  test_submit_event_extends_event_slot_ttl = do
    Admin.init h admin 0
    Ring.submit_event h ctx admin (make_input 62)
    assert_ttl (entry_lease (event_log 0)) event_bump_amount

  unfoldable pub test_event_survives_past_min_floor_and_get_event_extends_it :
      Action Error h.State ⊤
  test_event_survives_past_min_floor_and_get_event_extends_it = do
    Admin.init h admin 0
    Ring.submit_event h ctx admin (make_input 63)
    pass_ledgers 20000
    ev ← Ring.get_event h 0
    trap_if (not (ev.contract_id == 63))
    assert_ttl (entry_lease (event_log 0)) event_bump_amount

-- What the tests rely on of the test host besides the laws of every host: entries outlive the ledgers
-- that their time to live covers, which goes down by one with each; a write to the instance leaves
-- its time to live as it is, a new persistent entry gets the network's minimum.
pub record Clock (h : Host Value Published) (advance : ℕ → h.State → h.State) (floor : ℕ)
    : Type 0 where
  pub get-advance :
      (p : Slot DataKey) (k : ℕ) (s : h.State)
      → k < h.ttl (lease_of p) s
      → h.get p (advance k s) ≡ h.get p s
  pub ttl-advance :
      (l : Lease DataKey) (k : ℕ) (s : h.State) → h.ttl l (advance k s) ≡ h.ttl l s - k
  pub ttl-set_instance :
      (key : DataKey) (v : Value key) (s : h.State)
      → h.ttl instance_lease (h.set (instance_slot key) v s) ≡ h.ttl instance_lease s
  pub ttl-set_new :
      (key : DataKey) (v : Value key) (s : h.State)
      → h.get (persistent_slot key) s ≡ none
      → h.ttl (entry_lease key) (h.set (persistent_slot key) v s) ≡ floor

module _ (h : Host Value Published) (advance : ℕ → h.State → h.State) (floor n : ℕ)
    (clock : Clock h advance floor) (low : floor < event_lifetime_threshold) (s : h.State)
    (blank_ : view h s ≡ blank) (young : h.ttl instance_lease s < instance_lifetime_threshold) where
  unopened : h.get (instance_slot key_admin) s ≡ none
  unopened = ap (λ v. v.owner) blank_

  running : h.get (instance_slot paused) s ≡ none
  running = ap (λ v. v.frozen) blank_

  unregistered : (id : ℕ) → h.get (persistent_slot (contract id)) s ≡ none
  unregistered id = ap (λ v. v.contracts id) blank_

  unsubmitted : (slot : ℕ) → h.get (persistent_slot (event_log slot)) s ≡ none
  unsubmitted slot = ap (λ v. v.log slot) blank_

  init_passes : passes (test_init_extends_instance_ttl_to_bump_amount h advance n s) ≡ true
  unfolding test_init_extends_instance_ttl_to_bump_amount Admin.init
  init_passes = grind (arith, unopened, h.has-get, clock.ttl-set_instance, h.ttl-extend_ttl_self)

  pause_passes :
      passes (test_instance_data_survives_past_min_floor_after_state_changing_call h advance n s)
      ≡ true
  unfolding test_instance_data_survives_past_min_floor_after_state_changing_call Admin.init
      Admin.pause Admin.is_paused
  pause_passes = grind (
    arith, unopened, h.has-get, h.get-set_self, h.get-set_ne, h.get-extend_ttl, h.get-publish,
    clock.ttl-set_instance, clock.ttl-set_new, clock.ttl-advance, clock.get-advance,
    h.ttl-extend_ttl_self, h.ttl-extend_ttl_ne, h.ttl-set_ne, h.ttl-publish,
  )

  register_passes : passes (test_register_contract_extends_registry_entry_ttl h advance n s) ≡ true
  unfolding test_register_contract_extends_registry_entry_ttl Admin.init Registry.register_contract
  register_passes = grind (
    arith,
    unopened,
    running,
    unregistered 60,
    h.has-get,
    h.get-set_self,
    h.get-set_ne,
    h.get-extend_ttl,
    h.get-publish,
    clock.ttl-set_instance,
    clock.ttl-set_new,
    clock.ttl-advance,
    clock.get-advance,
    h.ttl-extend_ttl_self,
    h.ttl-extend_ttl_ne,
    h.ttl-set_ne,
    h.ttl-publish,
  )

  registry_read_passes :
      passes (test_registry_entry_survives_past_min_floor_and_read_extends_it h advance n s) ≡ true
  unfolding test_registry_entry_survives_past_min_floor_and_read_extends_it Admin.init
      Registry.register_contract Registry.get_contract
  registry_read_passes = grind (
    arith,
    unopened,
    running,
    unregistered 61,
    h.has-get,
    h.get-set_self,
    h.get-set_ne,
    h.get-extend_ttl,
    h.get-publish,
    clock.ttl-set_instance,
    clock.ttl-set_new,
    clock.ttl-advance,
    clock.get-advance,
    h.ttl-extend_ttl_self,
    h.ttl-extend_ttl_ne,
    h.ttl-set_ne,
    h.ttl-publish,
  )

  submit_passes : passes (test_submit_event_extends_event_slot_ttl h advance n s) ≡ true
  unfolding test_submit_event_extends_event_slot_ttl Admin.init Ring.submit_event
  submit_passes = grind (
    arith,
    unopened,
    running,
    unsubmitted 0,
    h.has-get,
    h.get-set_self,
    h.get-set_ne,
    h.get-extend_ttl,
    h.get-publish,
    clock.ttl-set_instance,
    clock.ttl-set_new,
    clock.ttl-advance,
    clock.get-advance,
    h.ttl-extend_ttl_self,
    h.ttl-extend_ttl_ne,
    h.ttl-set_ne,
    h.ttl-publish,
  )

  event_read_passes :
      passes (test_event_survives_past_min_floor_and_get_event_extends_it h advance n s) ≡ true
  unfolding test_event_survives_past_min_floor_and_get_event_extends_it Admin.init Ring.submit_event
      Ring.get_event
  event_read_passes = grind (
    arith,
    unopened,
    running,
    unsubmitted 0,
    h.has-get,
    h.get-set_self,
    h.get-set_ne,
    h.get-extend_ttl,
    h.get-publish,
    clock.ttl-set_instance,
    clock.ttl-set_new,
    clock.ttl-advance,
    clock.get-advance,
    h.ttl-extend_ttl_self,
    h.ttl-extend_ttl_ne,
    h.ttl-set_ne,
    h.ttl-publish,
  )

  -- Over every host with such a clock whose minimum is below 6 days of ledgers, on a contract that
  -- was never called and whose instance lives for less than 29 days: the tests of the storage
  -- lifetimes return.
  pub lifetime_tests_pass :
      (passes (test_init_extends_instance_ttl_to_bump_amount h advance n s) ≡ true)
      × (passes (test_instance_data_survives_past_min_floor_after_state_changing_call h advance n s)
          ≡ true)
      × (passes (test_register_contract_extends_registry_entry_ttl h advance n s) ≡ true)
      × (passes (test_registry_entry_survives_past_min_floor_and_read_extends_it h advance n s)
          ≡ true)
      × (passes (test_submit_event_extends_event_slot_ttl h advance n s) ≡ true)
      × (passes (test_event_survives_past_min_floor_and_get_event_extends_it h advance n s) ≡ true)
  lifetime_tests_pass = (
    init_passes, pause_passes, register_passes, registry_read_passes, submit_passes,
    event_read_passes,
  )
