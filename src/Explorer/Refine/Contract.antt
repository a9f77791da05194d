-- ===== src/Explorer/Refine/Contract.antt =====
-- The contract as a whole against its specification.
use octraban_contract.Common.{◌≡◌, arith}
use octraban_contract.Host.{done, Action, Host, Invocation}
use octraban_contract.Host.Observe.{observe, observe-done}
use octraban_contract.Explorer.Types.{Error, Value, Published}
use octraban_contract.Explorer.Contract.{Call, discard, invoke}
use octraban_contract.Explorer.View.{view}
use octraban_contract.Explorer.Spec
use octraban_contract.Explorer.Refine.Handover
use octraban_contract.Explorer.Refine.Registry
use octraban_contract.Explorer.Refine.Ring

discard-observe :
    {S T A : Type 0} (f : S → T) (m : Action Error S A) (q : Action Error T A) (s : S)
    → observe f (m s) ≡ q (f s)
    → observe f (discard m s) ≡ discard q (f s)
discard-observe f m q s e = ground arith

module _ (h : Host Value Published) (ctx : Invocation) where
  -- An invocation in a sequence, whose result nobody reads, ends as its specification says: in the
  -- same way, with the same error, and with the change of the visible storage that is specified.
  pub invoke-refines :
      (c : Call) (s : h.State) → observe (view h) (invoke h ctx c s) ≡ Spec.invoke ctx c (view h s)
  unfolding invoke Spec.invoke
  invoke-refines (Call.init a n) s = Handover.init-refines h a n s
  invoke-refines (Call.transfer_admin a b) s = Handover.transfer_admin-refines h ctx a b s
  invoke-refines (Call.accept_admin a) s = Handover.accept_admin-refines h ctx a s
  invoke-refines (Call.cancel_admin_transfer a) s = Handover.cancel_admin_transfer-refines h ctx a s
  invoke-refines (Call.pause a) s = Handover.pause-refines h ctx a s
  invoke-refines (Call.unpause a) s = Handover.unpause-refines h ctx a s
  invoke-refines (Call.set_max_events a n) s = Ring.set_max_events-refines h ctx a n s
  invoke-refines (Call.upgrade a w) s = Handover.upgrade-refines h ctx a w s
  invoke-refines (Call.register_contract a id m) s =
      Registry.register_contract-refines h ctx a id m s
  invoke-refines (Call.update_contract a id m) s = Registry.update_contract-refines h ctx a id m s
  invoke-refines (Call.deregister_contract a id) s =
      Registry.deregister_contract-refines h ctx a id s
  invoke-refines (Call.submit_event a i) s = Ring.submit_event-refines h ctx a i s
  invoke-refines Call.storage_utilisation s =
      discard-observe (view h) (octraban_contract.Explorer.Ring.storage_utilisation h)
        Spec.storage_utilisation s (Ring.storage_utilisation-refines h s)
  invoke-refines Call.is_paused s =
      discard-observe (view h) (octraban_contract.Explorer.Admin.is_paused h) Spec.is_paused s
        (Handover.is_paused-refines h s)
  invoke-refines Call.event_count s =
      discard-observe (view h) (octraban_contract.Explorer.Ring.event_count h) Spec.event_count s
        (Ring.event_count-refines h s)
  invoke-refines (Call.get_contract id) s =
      discard-observe (view h) (octraban_contract.Explorer.Registry.get_contract h id)
        (Spec.get_contract id) s (Registry.get_contract-refines h id s)
  invoke-refines (Call.get_latest_contract id) s =
      discard-observe (view h) (octraban_contract.Explorer.Registry.get_latest_contract h id)
        (Spec.get_latest_contract id) s (Registry.get_latest_contract-refines h id s)
  invoke-refines (Call.get_contract_version id n) s =
      discard-observe (view h) (octraban_contract.Explorer.Registry.get_contract_version h id n)
        (Spec.get_contract_version id n) s (Registry.get_contract_version-refines h id n s)
  invoke-refines (Call.get_event n) s =
      discard-observe (view h) (octraban_contract.Explorer.Ring.get_event h n) (Spec.get_event n) s
        (Ring.get_event-refines h n s)
  invoke-refines (Call.get_events c l) s =
      discard-observe (view h) (octraban_contract.Explorer.Ring.get_events h c l)
        (Spec.get_events c l) s (Ring.get_events-refines h c l s)

  -- What a successful invocation does to the visible storage, by its specification.
  pub invoke-done :
      (c : Call) (s s' : h.State) {r : Unit {0}}
      → invoke h ctx c s ≡ done r s'
      → Spec.invoke ctx c (view h s) ≡ done r (view h s')
  invoke-done c s s' e =
      observe-done (view h) (invoke h ctx c s) (Spec.invoke ctx c (view h s)) (invoke-refines c s) e
