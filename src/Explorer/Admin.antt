-- ===== src/Explorer/Admin.antt =====
-- explorer/src/lib.rs: initialisation, the two-step handover of the admin, pausing and upgrades.
use octraban_contract.Common.{ℕ, Bool, true, false, not, [], ◌∷◌, ◌==◌, if◌then◌else◌, unwrap_or, ⊤}
use octraban_contract.Host.{
  Action, ◌>>=◌, ◌>>◌, Host, Invocation, instance_slot, instance_lease, pure, raise_if, unwrap,
  or_raise, require_auth, get, has, set, remove, extend_ttl, publish, update_current_contract_wasm,
}
use octraban_contract.Explorer.Types.{
  Error, unauthorized, already_exists, not_found, contract_paused, Address, Bytes32, admin,
  pending_admin, event_seq, max_events, paused, default_max_events, instance_bump_amount,
  instance_lifetime_threshold, event_version, Value, Val, Published,
}

module _ (h : Host Value Published) where
  -- `env.storage().instance().extend_ttl(..)`, as every state-changing entry point calls it.
  abbrev pub extend_instance : Action Error h.State ⊤
  extend_instance = extend_ttl h instance_lease instance_lifetime_threshold instance_bump_amount

  unfoldable pub init : Address → ℕ → Action Error h.State ⊤
  init admin_address capacity = do
    raise_if (← has h (instance_slot admin)) already_exists
    let cap = if capacity == 0 then default_max_events else capacity
    set h (instance_slot admin) admin_address
    set h (instance_slot event_seq) 0
    set h (instance_slot max_events) cap
    extend_instance

  unfoldable pub is_paused : Action Error h.State Bool
  is_paused = do pure (unwrap_or (← get h (instance_slot paused)) false)

module _ (h : Host Value Published) (ctx : Invocation) where
  unfoldable pub transfer_admin : Address → Address → Action Error h.State ⊤
  transfer_admin caller new_admin = do
    require_auth ctx caller
    current ← unwrap (← get h (instance_slot admin))
    raise_if (not (caller == current)) unauthorized
    set h (instance_slot pending_admin) new_admin
    extend_instance h
    publish h record {
      topics = Val.symbol "adm_nom" ∷ Val.address caller ∷ [];
      payload = Val.u32 event_version ∷ Val.address new_admin ∷ [];
    }

  unfoldable pub accept_admin : Address → Action Error h.State ⊤
  accept_admin caller = do
    require_auth ctx caller
    pending ← or_raise (← get h (instance_slot pending_admin)) not_found
    raise_if (not (caller == pending)) unauthorized
    set h (instance_slot admin) caller
    remove h (instance_slot pending_admin)
    extend_instance h
    publish h record {
      topics = Val.symbol "adm_acc" ∷ Val.address caller ∷ [];
      payload = Val.u32 event_version ∷ [];
    }

  unfoldable pub cancel_admin_transfer : Address → Action Error h.State ⊤
  cancel_admin_transfer caller = do
    require_auth ctx caller
    current ← unwrap (← get h (instance_slot admin))
    raise_if (not (caller == current)) unauthorized
    raise_if (not (← has h (instance_slot pending_admin))) not_found
    remove h (instance_slot pending_admin)
    extend_instance h
    publish h record {
      topics = Val.symbol "adm_cncl" ∷ Val.address caller ∷ [];
      payload = Val.u32 event_version ∷ [];
    }

  unfoldable pub pause : Address → Action Error h.State ⊤
  pause caller = do
    require_auth ctx caller
    current ← unwrap (← get h (instance_slot admin))
    raise_if (not (caller == current)) unauthorized
    set h (instance_slot paused) true
    extend_instance h
    publish h record { topics = Val.symbol "paused" ∷ []; payload = Val.u32 event_version ∷ [] }

  unfoldable pub unpause : Address → Action Error h.State ⊤
  unpause caller = do
    require_auth ctx caller
    current ← unwrap (← get h (instance_slot admin))
    raise_if (not (caller == current)) unauthorized
    set h (instance_slot paused) false
    extend_instance h
    publish h record { topics = Val.symbol "unpaused" ∷ []; payload = Val.u32 event_version ∷ [] }

  unfoldable pub upgrade : Address → Bytes32 → Action Error h.State ⊤
  upgrade caller new_wasm_hash = do
    require_auth ctx caller
    raise_if (unwrap_or (← get h (instance_slot paused)) false) contract_paused
    current ← unwrap (← get h (instance_slot admin))
    raise_if (not (caller == current)) unauthorized
    extend_instance h
    update_current_contract_wasm h ctx new_wasm_hash
    publish h record {
      topics = Val.symbol "upgrade" ∷ [];
      payload = Val.u32 event_version ∷ Val.bytes32 new_wasm_hash ∷ [];
    }
