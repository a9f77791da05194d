-- ===== src/Explorer/Leases.antt =====
-- The TTL policy: what each call leaves of the time to live of the instance, of the registry entries
-- and of the slots of the ring buffer.
pub mod Promised
use octraban_contract.Common.{ℕ, ◌≡◌, ◌≤◌, ◌%◌, false, some, arith}
use octraban_contract.Host.{done, Host, Invocation, Lease, instance_lease, entry_lease}
use octraban_contract.Explorer.Types.{
  Address, Bytes32, ContractMeta, EventInput, DecodedEvent, Value, Published, contract,
  contract_version, event_log, instance_lifetime_threshold, registry_lifetime_threshold,
  registry_bump_amount, event_lifetime_threshold, event_bump_amount, DataKey,
}
use octraban_contract.Explorer.Admin
use octraban_contract.Explorer.Registry
use octraban_contract.Explorer.Ring
use octraban_contract.Explorer.Contract.{Call, invoke}
use octraban_contract.Explorer.Spec
use octraban_contract.Explorer.View.{view}
use octraban_contract.Explorer.Safety.Reads.{is_read}

module _ (h : Host Value Published) where
  extend_ttl-le :
      (l : Lease DataKey) (a b : ℕ) (s : h.State) → a ≤ b → a ≤ h.ttl l (h.extend_ttl l a b s)
  extend_ttl-le l a b s le = ground (arith, h.ttl-extend_ttl_self l a b s)

  -- After every successful call that is not a read, the instance lives for at least 29 days more.
  pub instance_ttl :
      (ctx : Invocation) (c : Call) (s s' : h.State) {r : Unit {0}}
      → is_read c ≡ false
      → invoke h ctx c s ≡ done r s'
      → instance_lifetime_threshold ≤ h.ttl instance_lease s'
  unfolding invoke Admin.init Admin.transfer_admin Admin.accept_admin Admin.cancel_admin_transfer
      Admin.pause Admin.unpause Admin.upgrade Registry.register_contract Registry.update_contract
      Registry.deregister_contract Ring.set_max_events Ring.submit_event
  instance_ttl ctx (Call.init a n) s s' t e = grind (arith, h.ttl-extend_ttl_self)
  instance_ttl ctx Call.storage_utilisation s s' t e = cc
  instance_ttl ctx Call.is_paused s s' t e = cc
  instance_ttl ctx Call.event_count s s' t e = cc
  instance_ttl ctx (Call.get_contract _) s s' t e = cc
  instance_ttl ctx (Call.get_latest_contract _) s s' t e = cc
  instance_ttl ctx (Call.get_contract_version _ _) s s' t e = cc
  instance_ttl ctx (Call.get_event _) s s' t e = cc
  instance_ttl ctx (Call.get_events _ _) s s' t e = cc
  instance_ttl ctx _ s s' t e = grind (arith, extend_ttl-le, h.ttl-publish, h.ttl-update_wasm)

  -- A metadata entry that was read lives for at least 89 days more.
  pub get_contract-ttl :
      (id : Bytes32) (s s' : h.State) {m : ContractMeta}
      → Registry.get_contract h id s ≡ done m s'
      → registry_lifetime_threshold ≤ h.ttl (entry_lease (contract id)) s'
  unfolding Registry.get_contract
  get_contract-ttl id s s' e = ground (
    arith,
    extend_ttl-le (entry_lease (contract id)) registry_lifetime_threshold registry_bump_amount s,
  )

  -- A recorded version that was read lives for at least 89 days more.
  pub get_contract_version-ttl :
      (id : Bytes32) (n : ℕ) (s s' : h.State) {m : ContractMeta}
      → Registry.get_contract_version h id n s ≡ done (some m) s'
      → registry_lifetime_threshold
        ≤ h.ttl (entry_lease (contract_version (record { contract_id = id; abi_version = n }))) s'
  unfolding Registry.get_contract_version
  get_contract_version-ttl id n s s' e = ground (
    arith,
    extend_ttl-le (entry_lease (contract_version (record { contract_id = id; abi_version = n })))
        registry_lifetime_threshold registry_bump_amount s,
  )

  -- The entries that a registration writes live for at least 89 days more.
  pub register_contract-ttl :
      (ctx : Invocation) (a : Address) (id : Bytes32) (meta : ContractMeta) (s s' : h.State)
      {r : Unit {0}}
      → Registry.register_contract h ctx a id meta s ≡ done r s'
      → (registry_lifetime_threshold ≤ h.ttl (entry_lease (contract id)) s')
        × (registry_lifetime_threshold
            ≤ h.ttl
                (entry_lease (contract_version (record { contract_id = id; abi_version = 0 })))
                s')
  unfolding Registry.register_contract
  register_contract-ttl ctx a id meta s s' e =
      grind (arith, h.ttl-extend_ttl_self, h.ttl-extend_ttl_ne, h.ttl-set_ne, h.ttl-publish)

  -- The slot of an event that `get_event` returned lives for at least 6 days more.
  pub get_event-ttl :
      (n : ℕ) (s s' : h.State) {e : DecodedEvent}
      → Ring.get_event h n s ≡ done e s'
      → event_lifetime_threshold
        ≤ h.ttl (entry_lease (event_log (n % Spec.capacity_of (view h s)))) s'
  unfolding Ring.get_event
  get_event-ttl n s s' e = ground (
    arith,
    extend_ttl-le (entry_lease (event_log (n % Spec.capacity_of (view h s))))
        event_lifetime_threshold event_bump_amount s,
  )

  -- The slot of a submitted event lives for at least 6 days more.
  pub submit_event-ttl :
      (ctx : Invocation) (a : Address) (i : EventInput) (s s' : h.State) {r : Unit {0}}
      → Ring.submit_event h ctx a i s ≡ done r s'
      → let v = view h s in
        event_lifetime_threshold
        ≤ h.ttl (entry_lease (event_log (Spec.total_of v % Spec.capacity_of v))) s'
  unfolding Ring.submit_event
  submit_event-ttl ctx a i s s' e =
      grind (arith, extend_ttl-le, h.ttl-extend_ttl_ne, h.ttl-set_ne, h.ttl-publish)

  -- The entries that an update writes live for at least 89 days more.
  pub update_contract-ttl :
      (ctx : Invocation) (a : Address) (id : Bytes32) (meta : ContractMeta) (s s' : h.State)
      {r : Unit {0}}
      → Registry.update_contract h ctx a id meta s ≡ done r s'
      → (registry_lifetime_threshold ≤ h.ttl (entry_lease (contract id)) s')
        × (registry_lifetime_threshold
            ≤ h.ttl
                (entry_lease
                  (contract_version (record { contract_id = id; abi_version = meta.abi_version })))
                s')
  unfolding Registry.update_contract
  update_contract-ttl ctx a id meta s s' e =
      grind (arith, h.ttl-extend_ttl_self, h.ttl-extend_ttl_ne, h.ttl-set_ne, h.ttl-publish)

  -- The metadata entry that `get_latest_contract` found lives for at least 89 days more.
  pub get_latest_contract-ttl :
      (id : Bytes32) (s s' : h.State) {m : ContractMeta}
      → Registry.get_latest_contract h id s ≡ done (some m) s'
      → registry_lifetime_threshold ≤ h.ttl (entry_lease (contract id)) s'
  unfolding Registry.get_latest_contract
  get_latest_contract-ttl id s s' e = ground (
    arith,
    extend_ttl-le (entry_lease (contract id)) registry_lifetime_threshold registry_bump_amount s,
  )
