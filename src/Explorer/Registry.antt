-- ===== src/Explorer/Registry.antt =====
-- explorer/src/lib.rs: the contract registry and its history of ABI versions.
use octraban_contract.Common.{ℕ, false, not, ◌&&◌, Option, none, some, [], ◌∷◌, ◌==◌, unwrap_or, ⊤}
use octraban_contract.Host.{
  Action, ◌>>=◌, ◌>>◌, Host, Invocation, instance_slot, persistent_slot, entry_lease, pure,
  raise_if, unwrap, or_raise, checked_add, require_auth, get, has, set, remove, extend_ttl, publish,
}
use octraban_contract.Explorer.Types.{
  Error, unauthorized, already_exists, not_found, contract_paused, Address, Bytes32, DataKey, admin,
  contract, paused, contract_version, registry_bump_amount, registry_lifetime_threshold,
  event_version, ContractMeta, Value, Val, Published,
}
use octraban_contract.Explorer.Admin.{extend_instance}

module _ (h : Host Value Published) where
  -- `env.storage().persistent().extend_ttl(&key, REGISTRY_..)`.
  abbrev pub extend_registry : DataKey → Action Error h.State ⊤
  extend_registry key =
      extend_ttl h (entry_lease key) registry_lifetime_threshold registry_bump_amount

  unfoldable pub get_contract : Bytes32 → Action Error h.State ContractMeta
  get_contract contract_id = do
    let key = contract contract_id
    meta ← or_raise (← get h (persistent_slot key)) not_found
    extend_registry key
    pure meta

  -- The rest of a read with `?` on an `Option`: nothing found returns `None` at once.
  abbrev pub read_option :
      DataKey → Option ContractMeta → Action Error h.State (Option ContractMeta)
  read_option key none = pure none
  read_option key (some meta) = do extend_registry key; pure (some meta)

  unfoldable pub get_contract_version : Bytes32 → ℕ → Action Error h.State (Option ContractMeta)
  get_contract_version id v = do
    let key = contract_version (record { contract_id = id; abi_version = v })
    read_option key (← get h (persistent_slot key))

  unfoldable pub get_latest_contract : Bytes32 → Action Error h.State (Option ContractMeta)
  get_latest_contract contract_id = do
    let key = contract contract_id
    read_option key (← get h (persistent_slot key))

module _ (h : Host Value Published) (ctx : Invocation) where
  unfoldable pub register_contract : Address → Bytes32 → ContractMeta → Action Error h.State ⊤
  register_contract caller id meta = do
    require_auth ctx caller
    raise_if (unwrap_or (← get h (instance_slot paused)) false) contract_paused
    current ← unwrap (← get h (instance_slot admin))
    raise_if (not (caller == current)) unauthorized
    let key = contract id
    raise_if (← has h (persistent_slot key)) already_exists
    let stored = record meta { abi_version = 0; min_ledger = ctx.sequence }
    set h (persistent_slot key) stored
    extend_registry h key
    let vkey = contract_version (record { contract_id = id; abi_version = 0 })
    set h (persistent_slot vkey) stored
    extend_registry h vkey
    extend_instance h
    publish h record {
      topics = Val.symbol "c_reg" ∷ Val.bytes32 id ∷ [];
      payload =
          Val.u32 event_version
          ∷ Val.address stored.registered_by
          ∷ Val.u32 stored.version
          ∷ Val.u32 ctx.sequence
          ∷ Val.text stored.name
          ∷ [];
    }

  unfoldable pub update_contract : Address → Bytes32 → ContractMeta → Action Error h.State ⊤
  update_contract caller id meta = do
    require_auth ctx caller
    raise_if (unwrap_or (← get h (instance_slot paused)) false) contract_paused
    let key = contract id
    existing ← or_raise (← get h (persistent_slot key)) not_found
    current ← unwrap (← get h (instance_slot admin))
    raise_if (not (caller == existing.registered_by) && not (caller == current)) unauthorized
    expected ← checked_add 32 existing.abi_version 1
    raise_if (not (meta.abi_version == expected)) unauthorized
    let updated = record meta { min_ledger = ctx.sequence }
    set h (persistent_slot key) updated
    extend_registry h key
    let vkey = contract_version (record { contract_id = id; abi_version = meta.abi_version })
    set h (persistent_slot vkey) updated
    extend_registry h vkey
    extend_instance h
    publish h record {
      topics = Val.symbol "c_abiu" ∷ Val.bytes32 id ∷ [];
      payload =
          Val.u32 event_version
          ∷ Val.u32 existing.abi_version
          ∷ Val.u32 meta.abi_version
          ∷ Val.u32 ctx.sequence
          ∷ [];
    }
    publish h record {
      topics = Val.symbol "c_upd" ∷ Val.bytes32 id ∷ [];
      payload =
          Val.u32 event_version
          ∷ Val.address caller
          ∷ Val.u32 existing.version
          ∷ Val.u32 updated.version
          ∷ Val.u32 ctx.sequence
          ∷ [];
    }

  unfoldable pub deregister_contract : Address → Bytes32 → Action Error h.State ⊤
  deregister_contract caller id = do
    require_auth ctx caller
    raise_if (unwrap_or (← get h (instance_slot paused)) false) contract_paused
    let key = contract id
    existing ← or_raise (← get h (persistent_slot key)) not_found
    current ← unwrap (← get h (instance_slot admin))
    raise_if (not (caller == existing.registered_by) && not (caller == current)) unauthorized
    remove h (persistent_slot key)
    extend_instance h
    publish h record {
      topics = Val.symbol "c_dereg" ∷ Val.bytes32 id ∷ [];
      payload = Val.u32 event_version ∷ Val.address caller ∷ Val.u32 ctx.sequence ∷ [];
    }
