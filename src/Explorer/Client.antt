-- ===== src/Explorer/Client.antt =====
-- The client that `soroban_sdk` generates for the explorer contract: the reply of each call, and the
-- contract as what drives a script of calls.
use octraban_contract.Common.{ℕ, ◌≡◌, Bool, true, false, Option, List, refl, sym, ap, ◌∙◌, ⊤}
use octraban_contract.Host.{Action, Host, Invocation}
use octraban_contract.Host.Observe.{observe}
use octraban_contract.Host.Script.{Script, Driver, play, play-observe, passes, passes-observe}
use octraban_contract.Explorer.Types.{Error, ContractMeta, DecodedEvent, Value, Published}
use octraban_contract.Explorer.Admin
use octraban_contract.Explorer.Registry
use octraban_contract.Explorer.Ring
use octraban_contract.Explorer.Contract.{Call}
use octraban_contract.Explorer.View.{View, view}
use octraban_contract.Explorer.Spec
use octraban_contract.Explorer.Refine.{
  init-refines, transfer_admin-refines, accept_admin-refines, cancel_admin_transfer-refines,
  pause-refines, unpause-refines, upgrade-refines, is_paused-refines, register_contract-refines,
  update_contract-refines, deregister_contract-refines, get_contract-refines,
  get_latest_contract-refines, get_contract_version-refines, set_max_events-refines,
  submit_event-refines, storage_utilisation-refines, event_count-refines, get_event-refines,
  get_events-refines,
}

abbrev pub Reply : Call → Type 0
Reply Call.storage_utilisation = ℕ × ℕ
Reply Call.is_paused = Bool
Reply Call.event_count = ℕ
Reply (Call.get_contract _) = ContractMeta
Reply (Call.get_latest_contract _) = Option ContractMeta
Reply (Call.get_contract_version _ _) = Option ContractMeta
Reply (Call.get_event _) = DecodedEvent
Reply (Call.get_events _ _) = List DecodedEvent
Reply _ = ⊤

abbrev pub ExplorerScript : Type 0 → Type 0
ExplorerScript A = Script Reply Error Published A

unfoldable pub perform :
    (h : Host Value Published) → Invocation → (c : Call) → Action Error h.State (Reply c)
perform h ctx (Call.init a n) = Admin.init h a n
perform h ctx (Call.transfer_admin a b) = Admin.transfer_admin h ctx a b
perform h ctx (Call.accept_admin a) = Admin.accept_admin h ctx a
perform h ctx (Call.cancel_admin_transfer a) = Admin.cancel_admin_transfer h ctx a
perform h ctx (Call.pause a) = Admin.pause h ctx a
perform h ctx (Call.unpause a) = Admin.unpause h ctx a
perform h ctx (Call.set_max_events a n) = Ring.set_max_events h ctx a n
perform h ctx (Call.upgrade a w) = Admin.upgrade h ctx a w
perform h ctx (Call.register_contract a id m) = Registry.register_contract h ctx a id m
perform h ctx (Call.update_contract a id m) = Registry.update_contract h ctx a id m
perform h ctx (Call.deregister_contract a id) = Registry.deregister_contract h ctx a id
perform h ctx (Call.submit_event a i) = Ring.submit_event h ctx a i
perform h ctx Call.storage_utilisation = Ring.storage_utilisation h
perform h ctx Call.is_paused = Admin.is_paused h
perform h ctx Call.event_count = Ring.event_count h
perform h ctx (Call.get_contract id) = Registry.get_contract h id
perform h ctx (Call.get_latest_contract id) = Registry.get_latest_contract h id
perform h ctx (Call.get_contract_version id n) = Registry.get_contract_version h id n
perform h ctx (Call.get_event n) = Ring.get_event h n
perform h ctx (Call.get_events c l) = Ring.get_events h c l

abbrev pub specified : Invocation → (c : Call) → Action Error View (Reply c)
specified ctx (Call.init a n) = Spec.init a n
specified ctx (Call.transfer_admin a b) = Spec.transfer_admin ctx a b
specified ctx (Call.accept_admin a) = Spec.accept_admin ctx a
specified ctx (Call.cancel_admin_transfer a) = Spec.cancel_admin_transfer ctx a
specified ctx (Call.pause a) = Spec.set_paused ctx a true
specified ctx (Call.unpause a) = Spec.set_paused ctx a false
specified ctx (Call.set_max_events a n) = Spec.set_max_events ctx a n
specified ctx (Call.upgrade a w) = Spec.upgrade ctx a w
specified ctx (Call.register_contract a id m) = Spec.register_contract ctx a id m
specified ctx (Call.update_contract a id m) = Spec.update_contract ctx a id m
specified ctx (Call.deregister_contract a id) = Spec.deregister_contract ctx a id
specified ctx (Call.submit_event a i) = Spec.submit_event ctx a i
specified ctx Call.storage_utilisation = Spec.storage_utilisation
specified ctx Call.is_paused = Spec.is_paused
specified ctx Call.event_count = Spec.event_count
specified ctx (Call.get_contract id) = Spec.get_contract id
specified ctx (Call.get_latest_contract id) = Spec.get_latest_contract id
specified ctx (Call.get_contract_version id n) = Spec.get_contract_version id n
specified ctx (Call.get_event n) = Spec.get_event n
specified ctx (Call.get_events c l) = Spec.get_events c l

abbrev pub contract : (h : Host Value Published) → Invocation → Driver Reply Error Published h.State
contract h ctx = record { perform = perform h ctx; log = h.events }

abbrev pub spec_contract : Invocation → Driver Reply Error Published View
spec_contract ctx = record { perform = specified ctx; log = λ v. v.emitted }

module _ (h : Host Value Published) (ctx : Invocation) where
  -- Over every host, each entry point ends as its specification says: in the same way, with the same
  -- result or error, and with the change of the visible storage that is specified.
  pub perform-refines :
      (c : Call) (s : h.State) → observe (view h) (perform h ctx c s) ≡ specified ctx c (view h s)
  unfolding perform
  perform-refines (Call.init a n) s = init-refines h a n s
  perform-refines (Call.transfer_admin a b) s = transfer_admin-refines h ctx a b s
  perform-refines (Call.accept_admin a) s = accept_admin-refines h ctx a s
  perform-refines (Call.cancel_admin_transfer a) s = cancel_admin_transfer-refines h ctx a s
  perform-refines (Call.pause a) s = pause-refines h ctx a s
  perform-refines (Call.unpause a) s = unpause-refines h ctx a s
  perform-refines (Call.set_max_events a n) s = set_max_events-refines h ctx a n s
  perform-refines (Call.upgrade a w) s = upgrade-refines h ctx a w s
  perform-refines (Call.register_contract a id m) s = register_contract-refines h ctx a id m s
  perform-refines (Call.update_contract a id m) s = update_contract-refines h ctx a id m s
  perform-refines (Call.deregister_contract a id) s = deregister_contract-refines h ctx a id s
  perform-refines (Call.submit_event a i) s = submit_event-refines h ctx a i s
  perform-refines Call.storage_utilisation s = storage_utilisation-refines h s
  perform-refines Call.is_paused s = is_paused-refines h s
  perform-refines Call.event_count s = event_count-refines h s
  perform-refines (Call.get_contract id) s = get_contract-refines h id s
  perform-refines (Call.get_latest_contract id) s = get_latest_contract-refines h id s
  perform-refines (Call.get_contract_version id n) s = get_contract_version-refines h id n s
  perform-refines (Call.get_event n) s = get_event-refines h n s
  perform-refines (Call.get_events c l) s = get_events-refines h c l s

  -- A script over the contract is seen to end as over its specification.
  pub script-refines :
      {A : Type 0} (m : ExplorerScript A) (s : h.State)
      → observe (view h) (play (contract h ctx) m s) ≡ play (spec_contract ctx) m (view h s)
  script-refines m s =
      play-observe (view h) (contract h ctx) (spec_contract ctx) perform-refines (λ t. refl) m s

  pub script-passes :
      {A : Type 0} (m : ExplorerScript A) (s : h.State)
      → passes (play (contract h ctx) m s) ≡ passes (play (spec_contract ctx) m (view h s))
  script-passes m s =
      sym (passes-observe (view h) (play (contract h ctx) m s)) ∙ ap passes (script-refines m s)
