-- ===== src/Explorer/Contract.antt =====
-- explorer/src/lib.rs: the contract as a whole, an invocation of any of its entry points.
use octraban_contract.Common.{◌≡◌, arith, ℕ, List, [], ◌∷◌, ⊤}
use octraban_contract.Host.{
  Outcome, done, panic, trap, diverge, Action, ◌>>=◌, Host, Invocation, pure,
}
use octraban_contract.Explorer.Types.{
  Error, Address, Bytes32, ContractMeta, EventInput, Value, Published,
}
use octraban_contract.Explorer.Admin
use octraban_contract.Explorer.Registry
use octraban_contract.Explorer.Ring

-- The entry points of `impl ExplorerContract`, with their arguments.
pub data Call : Type 0 where
  init : Address → ℕ → Call
  transfer_admin : Address → Address → Call
  accept_admin cancel_admin_transfer pause unpause : Address → Call
  set_max_events : Address → ℕ → Call
  upgrade : Address → Bytes32 → Call
  register_contract update_contract : Address → Bytes32 → ContractMeta → Call
  deregister_contract : Address → Bytes32 → Call
  submit_event : Address → EventInput → Call
  storage_utilisation is_paused event_count : Call
  get_contract get_latest_contract : Bytes32 → Call
  get_contract_version : Bytes32 → ℕ → Call
  get_event : ℕ → Call
  get_events : ℕ → ℕ → Call

-- An action whose result is dropped.
abbrev pub discard : {E S A : Type 0} → Action E S A → Action E S ⊤
discard m = do _ ← m; pure tt

pub discard-done :
    {E S A : Type 0} (m : Action E S A) (s : S) {r : Unit {0}} {s' : S}
    → discard m s ≡ done r s'
    → (a : A) × (m s ≡ done a s')
discard-done m s e = ground arith

unfoldable pub invoke : (h : Host Value Published) → Invocation → Call → Action Error h.State ⊤
invoke h ctx (Call.init a n) = Admin.init h a n
invoke h ctx (Call.transfer_admin a b) = Admin.transfer_admin h ctx a b
invoke h ctx (Call.accept_admin a) = Admin.accept_admin h ctx a
invoke h ctx (Call.cancel_admin_transfer a) = Admin.cancel_admin_transfer h ctx a
invoke h ctx (Call.pause a) = Admin.pause h ctx a
invoke h ctx (Call.unpause a) = Admin.unpause h ctx a
invoke h ctx (Call.set_max_events a n) = Ring.set_max_events h ctx a n
invoke h ctx (Call.upgrade a w) = Admin.upgrade h ctx a w
invoke h ctx (Call.register_contract a id m) = Registry.register_contract h ctx a id m
invoke h ctx (Call.update_contract a id m) = Registry.update_contract h ctx a id m
invoke h ctx (Call.deregister_contract a id) = Registry.deregister_contract h ctx a id
invoke h ctx (Call.submit_event a i) = Ring.submit_event h ctx a i
invoke h ctx Call.storage_utilisation = discard (Ring.storage_utilisation h)
invoke h ctx Call.is_paused = discard (Admin.is_paused h)
invoke h ctx Call.event_count = discard (Ring.event_count h)
invoke h ctx (Call.get_contract id) = discard (Registry.get_contract h id)
invoke h ctx (Call.get_latest_contract id) = discard (Registry.get_latest_contract h id)
invoke h ctx (Call.get_contract_version id n) = discard (Registry.get_contract_version h id n)
invoke h ctx (Call.get_event n) = discard (Ring.get_event h n)
invoke h ctx (Call.get_events c l) = discard (Ring.get_events h c l)

-- What the host keeps of an invocation: its writes if it ends well, else nothing of it.
abbrev pub commit : {E S A : Type 0} → Outcome E S A → S → S
commit (done _ s') s = s'
commit (panic _) s = s
commit trap s = s
commit diverge s = s

-- A sequence of invocations of this code, each of them committed. What other code does after an
-- upgrade is not part of it.
unfoldable pub run : (h : Host Value Published) → List (Invocation × Call) → h.State → h.State
run h [] s = s
run h ((ctx, c) ∷ cs) s = run h cs (commit (invoke h ctx c s) s)
