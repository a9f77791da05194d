-- ===== src/Explorer/Spec/Contract.antt =====
-- Any entry point.
use octraban_contract.Common.{true, false, ⊤}
use octraban_contract.Host.{Action, Invocation}
use octraban_contract.Explorer.Types.{Error}
use octraban_contract.Explorer.Contract.{Call, discard}
use octraban_contract.Explorer.View.{View}
use octraban_contract.Explorer.Spec.Handover
use octraban_contract.Explorer.Spec.Registry
use octraban_contract.Explorer.Spec.Ring

unfoldable pub invoke : Invocation → Call → Action Error View ⊤
unfolding Handover.init Handover.transfer_admin Handover.accept_admin Handover.cancel_admin_transfer
    Handover.set_paused Handover.upgrade Handover.is_paused Registry.get_contract
    Registry.get_contract_version Registry.get_latest_contract Registry.register_contract
    Registry.update_contract Registry.deregister_contract Ring.event_count Ring.storage_utilisation
    Ring.get_event Ring.get_events Ring.set_max_events Ring.submit_event
invoke ctx (Call.init a n) = Handover.init a n
invoke ctx (Call.transfer_admin a b) = Handover.transfer_admin ctx a b
invoke ctx (Call.accept_admin a) = Handover.accept_admin ctx a
invoke ctx (Call.cancel_admin_transfer a) = Handover.cancel_admin_transfer ctx a
invoke ctx (Call.pause a) = Handover.set_paused ctx a true
invoke ctx (Call.unpause a) = Handover.set_paused ctx a false
invoke ctx (Call.set_max_events a n) = Ring.set_max_events ctx a n
invoke ctx (Call.upgrade a w) = Handover.upgrade ctx a w
invoke ctx (Call.register_contract a id m) = Registry.register_contract ctx a id m
invoke ctx (Call.update_contract a id m) = Registry.update_contract ctx a id m
invoke ctx (Call.deregister_contract a id) = Registry.deregister_contract ctx a id
invoke ctx (Call.submit_event a i) = Ring.submit_event ctx a i
invoke ctx Call.storage_utilisation = discard Ring.storage_utilisation
invoke ctx Call.is_paused = discard Handover.is_paused
invoke ctx Call.event_count = discard Ring.event_count
invoke ctx (Call.get_contract id) = discard (Registry.get_contract id)
invoke ctx (Call.get_latest_contract id) = discard (Registry.get_latest_contract id)
invoke ctx (Call.get_contract_version id n) = discard (Registry.get_contract_version id n)
invoke ctx (Call.get_event n) = discard (Ring.get_event n)
invoke ctx (Call.get_events c l) = discard (Ring.get_events c l)
