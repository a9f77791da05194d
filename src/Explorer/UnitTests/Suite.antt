-- ===== src/Explorer/UnitTests/Suite.antt =====
-- explorer/src/lib.rs, `mod tests`: the tests with their marks.
use octraban_contract.Common.{ℕ, Bool, true, false, List, [], ◌∷◌, ⊤}
use octraban_contract.Explorer.Client.{ExplorerScript}
use octraban_contract.Explorer.UnitTests.Basic.{
  test_init_and_register, test_register_unauthorized, test_submit_and_get_event,
  test_cursor_pagination, test_double_init_panics, test_ring_buffer_wraps_correctly,
  test_storage_utilisation, test_set_max_events_below_floor_rejected, test_set_max_events_accepted,
}
use octraban_contract.Explorer.UnitTests.Diagnostics.{
  test_register_emits_c_reg_event, test_update_emits_c_abiu_and_c_upd_events,
  test_submit_emits_ev_sub_and_decoded_events, test_cap_hit_event_emitted_on_eviction,
  test_submit_event_rejects_empty_function_name,
}
use octraban_contract.Explorer.UnitTests.Pages.{
  test_get_events_rejects_zero_limit, test_get_events_clamps_limit_to_max_page_size,
  test_get_events_paging_returns_each_event_exactly_once,
}
use octraban_contract.Explorer.UnitTests.Versions.{
  test_register_sets_version_zero, test_sequential_updates_increment_abi_version,
  test_stale_write_rejected, test_get_contract_not_found,
  test_get_latest_contract_returns_none_for_missing, test_admin_deregisters_contract,
  test_registrant_deregisters_contract, test_stranger_cannot_deregister,
  test_deregister_missing_id_panics, test_deregister_emits_c_dereg_event,
}
use octraban_contract.Explorer.UnitTests.Handover.{
  test_transfer_admin_emits_adm_nom_event, test_admin_retains_control_after_nomination,
  test_nominee_cannot_act_before_accepting, test_transfer_admin_unauthorized,
  test_accept_admin_emits_adm_acc_event, test_accept_admin_promotes_new_admin,
  test_old_admin_loses_access_after_accept, test_only_pending_admin_can_accept,
  test_accept_admin_without_pending_panics, test_cancel_admin_transfer_emits_adm_cncl_event,
  test_current_admin_can_cancel_pending_transfer, test_accept_admin_after_cancel_panics,
  test_cancel_admin_transfer_unauthorized, test_cancel_admin_transfer_without_pending_panics,
  test_transfer_admin_to_self_then_accept_is_noop, test_pause_and_unpause_emit_events,
}
use octraban_contract.Explorer.UnitTests.Upgrades.{
  test_non_admin_cannot_upgrade, test_old_admin_cannot_upgrade_after_transfer,
  test_upgrade_while_paused,
}

-- A test, and whether it is marked `#[should_panic]`.
pub record Test : Type 0 where
  pub should_panic : Bool
  pub script : ExplorerScript ⊤

abbrev pub basic_tests : ℕ → List Test
basic_tests n =
    record { should_panic = false; script = test_init_and_register }
    ∷ record { should_panic = true; script = test_register_unauthorized }
    ∷ record { should_panic = false; script = test_submit_and_get_event }
    ∷ record { should_panic = false; script = test_cursor_pagination }
    ∷ record { should_panic = true; script = test_double_init_panics }
    ∷ record { should_panic = false; script = test_ring_buffer_wraps_correctly }
    ∷ record { should_panic = false; script = test_storage_utilisation }
    ∷ record { should_panic = true; script = test_set_max_events_below_floor_rejected }
    ∷ record { should_panic = false; script = test_set_max_events_accepted }
    ∷ []

abbrev pub diagnostics_tests : ℕ → List Test
diagnostics_tests n =
    record { should_panic = false; script = (test_register_emits_c_reg_event n) }
    ∷ record { should_panic = false; script = (test_update_emits_c_abiu_and_c_upd_events n) }
    ∷ record { should_panic = false; script = test_submit_emits_ev_sub_and_decoded_events }
    ∷ record { should_panic = false; script = test_cap_hit_event_emitted_on_eviction }
    ∷ record { should_panic = true; script = test_submit_event_rejects_empty_function_name }
    ∷ []

abbrev pub pages_tests : ℕ → List Test
pages_tests n =
    record { should_panic = true; script = test_get_events_rejects_zero_limit }
    ∷ record { should_panic = false; script = test_get_events_clamps_limit_to_max_page_size }
    ∷ record {
      should_panic = false;
      script = test_get_events_paging_returns_each_event_exactly_once;
    }
    ∷ []

abbrev pub versions_tests : ℕ → List Test
versions_tests n =
    record { should_panic = false; script = test_register_sets_version_zero }
    ∷ record { should_panic = false; script = test_sequential_updates_increment_abi_version }
    ∷ record { should_panic = true; script = test_stale_write_rejected }
    ∷ record { should_panic = false; script = test_get_contract_not_found }
    ∷ record { should_panic = false; script = test_get_latest_contract_returns_none_for_missing }
    ∷ record { should_panic = false; script = test_admin_deregisters_contract }
    ∷ record { should_panic = false; script = test_registrant_deregisters_contract }
    ∷ record { should_panic = true; script = test_stranger_cannot_deregister }
    ∷ record { should_panic = true; script = test_deregister_missing_id_panics }
    ∷ record { should_panic = false; script = (test_deregister_emits_c_dereg_event n) }
    ∷ []

abbrev pub handover_tests : ℕ → List Test
handover_tests n =
    record { should_panic = false; script = test_transfer_admin_emits_adm_nom_event }
    ∷ record { should_panic = false; script = test_admin_retains_control_after_nomination }
    ∷ record { should_panic = true; script = test_nominee_cannot_act_before_accepting }
    ∷ record { should_panic = true; script = test_transfer_admin_unauthorized }
    ∷ record { should_panic = false; script = test_accept_admin_emits_adm_acc_event }
    ∷ record { should_panic = false; script = test_accept_admin_promotes_new_admin }
    ∷ record { should_panic = true; script = test_old_admin_loses_access_after_accept }
    ∷ record { should_panic = true; script = test_only_pending_admin_can_accept }
    ∷ record { should_panic = true; script = test_accept_admin_without_pending_panics }
    ∷ record { should_panic = false; script = test_cancel_admin_transfer_emits_adm_cncl_event }
    ∷ record { should_panic = false; script = test_current_admin_can_cancel_pending_transfer }
    ∷ record { should_panic = true; script = test_accept_admin_after_cancel_panics }
    ∷ record { should_panic = true; script = test_cancel_admin_transfer_unauthorized }
    ∷ record { should_panic = true; script = test_cancel_admin_transfer_without_pending_panics }
    ∷ record { should_panic = false; script = test_transfer_admin_to_self_then_accept_is_noop }
    ∷ record { should_panic = false; script = test_pause_and_unpause_emit_events }
    ∷ []

abbrev pub upgrades_tests : ℕ → List Test
upgrades_tests n =
    record { should_panic = true; script = test_non_admin_cannot_upgrade }
    ∷ record { should_panic = true; script = test_old_admin_cannot_upgrade_after_transfer }
    ∷ record { should_panic = true; script = test_upgrade_while_paused }
    ∷ []
