-- ===== src/Explorer/Replay/Run.antt =====
-- The published events of the explorer after any sequence of invocations.
use octraban_contract.Common.{◌≡◌, ◌≢◌, true, false, none, List, [], refl, arith}
use octraban_contract.Host.{done, Host, Invocation}
use octraban_contract.Explorer.Types.{Bytes32, Value, Published}
use octraban_contract.Explorer.Contract.{Call, run}
use octraban_contract.Explorer.View.{View, view}
use octraban_contract.Explorer.Spec
use octraban_contract.Explorer.Safety.Reads.{read-view}
use octraban_contract.Explorer.Refine.{run-keeps, every-true}
use octraban_contract.Explorer.Replay.{Known, known_of, replay, IsReplayed}
use octraban_contract.Explorer.Replay.Calls.{
  transfer_admin-IsReplayed, accept_admin-IsReplayed, cancel_admin_transfer-IsReplayed,
  set_paused-IsReplayed, upgrade-IsReplayed, register_contract-IsReplayed,
  deregister_contract-IsReplayed, submit_event-IsReplayed, update_contract-IsReplayed,
  unchanged-IsReplayed, init-IsReplayed, set_max_events-IsReplayed,
}

keeps_owner :
    (ctx : Invocation) (c : Call) (v v' : View) {r : Unit {0}}
    → Spec.invoke ctx c v ≡ done r v'
    → v.owner ≢ none
    → v'.owner ≢ none
unfolding Spec.invoke
keeps_owner ctx (Call.get_event n) v v' e owned =
    rw (read-view ctx (Call.get_event n) v v' refl e) owned
keeps_owner ctx (Call.get_events n l) v v' e owned =
    rw (read-view ctx (Call.get_events n l) v v' refl e) owned
keeps_owner ctx c v v' e owned = ground arith

invoke_told :
    (ctx : Invocation) (c : Call) (id : Bytes32) (k : Known) (v v' : View) {r : Unit {0}}
    → Spec.invoke ctx c v ≡ done r v'
    → IsReplayed id k v
    → replay id v'.emitted k ≡ known_of id v'
unfolding Spec.invoke
invoke_told ctx (Call.init a n) id k v v' e p = init-IsReplayed ctx id k v v' p a n e
invoke_told ctx (Call.transfer_admin a b) id k v v' e p =
    transfer_admin-IsReplayed ctx id k v v' p a b e
invoke_told ctx (Call.accept_admin a) id k v v' e p = accept_admin-IsReplayed ctx id k v v' p a e
invoke_told ctx (Call.cancel_admin_transfer a) id k v v' e p =
    cancel_admin_transfer-IsReplayed ctx id k v v' p a e
invoke_told ctx (Call.pause a) id k v v' e p = set_paused-IsReplayed ctx id k v v' p a true e
invoke_told ctx (Call.unpause a) id k v v' e p = set_paused-IsReplayed ctx id k v v' p a false e
invoke_told ctx (Call.set_max_events a n) id k v v' e p =
    set_max_events-IsReplayed ctx id k v v' p a n e
invoke_told ctx (Call.upgrade a w) id k v v' e p = upgrade-IsReplayed ctx id k v v' p a w e
invoke_told ctx (Call.register_contract a c m) id k v v' e p =
    register_contract-IsReplayed ctx id k v v' p a c m e
invoke_told ctx (Call.update_contract a c m) id k v v' e p =
    update_contract-IsReplayed ctx id k v v' p a c m e
invoke_told ctx (Call.deregister_contract a c) id k v v' e p =
    deregister_contract-IsReplayed ctx id k v v' p a c e
invoke_told ctx (Call.submit_event a i) id k v v' e p =
    submit_event-IsReplayed ctx id k v v' p a i e
invoke_told ctx c id k v v' e p = unchanged-IsReplayed id k v v' (read-view ctx c v v' refl e) p

-- Whatever is invoked after the contract has an admin and while it had published nothing, by
-- whomever and however it ends: the admin, the nominee, the pause, the code, the number of the next
-- event, and the ABI version of each contract, if it is registered, are what a reader of the
-- published events alone finds by the tables of docs/EVENTS.md, from what was known at the start.
pub replayed_contract :
    (h : Host Value Published) (cs : List (Invocation × Call)) (s : h.State) (id : Bytes32)
    → (view h s).owner ≢ none
    → h.events s ≡ []
    → replay id (h.events (run h cs s)) (known_of id (view h s)) ≡ known_of id (view h (run h cs s))
unfolding replay
replayed_contract h cs s id owned silent =
    let k = known_of id (view h s) in
    (run-keeps h (IsReplayed id k) (λ _ _. true)
      (λ ctx c v v' _ e p. (keeps_owner ctx c v v' e p.0, invoke_told ctx c id k v v' e p)) cs s
      (every-true cs) (owned, ground (arith, silent))).1
