-- ===== src/Explorer/Leases/Promised.antt =====
-- The TTL policy as a table: for each entry point, what a successful call of it keeps alive.
use octraban_contract.Common.{ℕ, ◌%◌, ◌≡◌, ◌≤◌, Option, none, some, List, [], ◌∷◌, ⊤, refl, arith}
use octraban_contract.Host.{done, Host, Invocation, Lease, instance_lease, entry_lease}
use octraban_contract.Explorer.Types.{
  Bytes32, ContractMeta, DataKey, contract, contract_version, event_log, Value, Published,
  instance_lifetime_threshold, registry_lifetime_threshold, event_lifetime_threshold,
}
use octraban_contract.Explorer.Registry
use octraban_contract.Explorer.Ring
use octraban_contract.Explorer.Contract.{Call, discard-done, invoke}
use octraban_contract.Explorer.View.{View, view}
use octraban_contract.Explorer.Spec
use octraban_contract.Explorer.Leases.{
  instance_ttl, get_contract-ttl, get_latest_contract-ttl, get_contract_version-ttl,
  register_contract-ttl, update_contract-ttl, get_event-ttl, submit_event-ttl,
}

-- A lease, and for how many ledgers at least it runs.
abbrev pub Promise : Type 0
Promise = Lease DataKey × ℕ

abbrev of_instance : Promise
of_instance = (instance_lease, instance_lifetime_threshold)

abbrev of_contract : Bytes32 → Promise
of_contract id = (entry_lease (contract id), registry_lifetime_threshold)

abbrev of_version : Bytes32 → ℕ → Promise
of_version id n = (
  entry_lease (contract_version (record { contract_id = id; abi_version = n })),
  registry_lifetime_threshold,
)

abbrev of_slot : ℕ → Promise
of_slot slot = (entry_lease (event_log slot), event_lifetime_threshold)

-- The table: 29 days for the instance, 89 for what the registry reads or writes, 6 for the slots of
-- the ring.
unfoldable pub promised : Call → View → List Promise
promised (Call.register_contract a id m) v = of_instance ∷ of_contract id ∷ of_version id 0 ∷ []
promised (Call.update_contract a id m) v =
    of_instance ∷ of_contract id ∷ of_version id m.abi_version ∷ []
promised (Call.submit_event a i) v =
    of_instance ∷ of_slot (Spec.total_of v % Spec.capacity_of v) ∷ []
promised (Call.get_contract id) v = of_contract id ∷ []
promised (Call.get_latest_contract id) v = elim (v.contracts id) [
  | none ↦ []
  | some m ↦ of_contract id ∷ []
]
promised (Call.get_contract_version id n) v = elim (v.versions id n) [
  | none ↦ []
  | some m ↦ of_version id n ∷ []
]
promised (Call.get_event n) v = of_slot (n % Spec.capacity_of v) ∷ []
promised (Call.get_events c l) v = []
promised Call.storage_utilisation v = []
promised Call.is_paused v = []
promised Call.event_count v = []
promised c v = of_instance ∷ []

-- The promises hold in a state.
abbrev pub AreKept : (h : Host Value Published) → h.State → List Promise → Type 0
AreKept h s [] = ⊤
AreKept h s ((l, n) ∷ ps) = (n ≤ h.ttl l s) × AreKept h s ps

module _ (h : Host Value Published) where
  found-latest :
      (id : Bytes32) (s s' : h.State) (m : ContractMeta) {o : Option ContractMeta}
      → Registry.get_latest_contract h id s ≡ done o s'
      → (view h s).contracts id ≡ some m
      → Registry.get_latest_contract h id s ≡ done (some m) s'
  unfolding Registry.get_latest_contract
  found-latest id s s' m e found = ground arith

  latest-AreKept :
      (id : Bytes32) (s s' : h.State) {r : Option ContractMeta} (o : Option ContractMeta)
      → Registry.get_latest_contract h id s ≡ done r s'
      → (view h s).contracts id ≡ o
      → AreKept h s' (elim o [ none ↦ [] | some m ↦ of_contract id ∷ [] ])
  latest-AreKept id s s' none e found = tt
  latest-AreKept id s s' (some m) e found =
      (get_latest_contract-ttl h id s s' (found-latest id s s' m e found), tt)

  found-version :
      (id : Bytes32) (n : ℕ) (s s' : h.State) (m : ContractMeta) {o : Option ContractMeta}
      → Registry.get_contract_version h id n s ≡ done o s'
      → (view h s).versions id n ≡ some m
      → Registry.get_contract_version h id n s ≡ done (some m) s'
  unfolding Registry.get_contract_version
  found-version id n s s' m e found = ground arith

  version-AreKept :
      (id : Bytes32) (n : ℕ) (s s' : h.State) {r : Option ContractMeta} (o : Option ContractMeta)
      → Registry.get_contract_version h id n s ≡ done r s'
      → (view h s).versions id n ≡ o
      → AreKept h s' (elim o [ none ↦ [] | some m ↦ of_version id n ∷ [] ])
  version-AreKept id n s s' none e found = tt
  version-AreKept id n s s' (some m) e found =
      (get_contract_version-ttl h id n s s' (found-version id n s s' m e found), tt)

  -- After every successful call each lease of the table runs for at least as long as the table says:
  -- the instance for 29 days after a call that is not a read, a metadata entry or a version for 89
  -- days after a call that wrote or returned it, a slot of the ring for 6 days after a submission to
  -- it or a read of its event by `get_event`.
  pub invoke-AreKept :
      (ctx : Invocation) (c : Call) (s s' : h.State) {r : Unit {0}}
      → invoke h ctx c s ≡ done r s'
      → AreKept h s' (promised c (view h s))
  unfolding invoke promised
  invoke-AreKept ctx (Call.register_contract a id m) s s' e = (
    instance_ttl h ctx (Call.register_contract a id m) s s' refl e,
    (
      (register_contract-ttl h ctx a id m s s' e).0,
      ((register_contract-ttl h ctx a id m s s' e).1, tt),
    ),
  )
  invoke-AreKept ctx (Call.update_contract a id m) s s' e = (
    instance_ttl h ctx (Call.update_contract a id m) s s' refl e,
    (
      (update_contract-ttl h ctx a id m s s' e).0,
      ((update_contract-ttl h ctx a id m s s' e).1, tt),
    ),
  )
  invoke-AreKept ctx (Call.submit_event a i) s s' e = (
    instance_ttl h ctx (Call.submit_event a i) s s' refl e,
    (submit_event-ttl h ctx a i s s' e, tt),
  )
  invoke-AreKept ctx (Call.get_contract id) s s' e =
      let (m, e') = discard-done (Registry.get_contract h id) s e in
      (get_contract-ttl h id s s' e', tt)
  invoke-AreKept ctx (Call.get_latest_contract id) s s' e =
      let (o, e') = discard-done (Registry.get_latest_contract h id) s e in
      latest-AreKept id s s' _ e' refl
  invoke-AreKept ctx (Call.get_contract_version id n) s s' e =
      let (o, e') = discard-done (Registry.get_contract_version h id n) s e in
      version-AreKept id n s s' _ e' refl
  invoke-AreKept ctx (Call.get_event n) s s' e =
      let (x, e') = discard-done (Ring.get_event h n) s e in (get_event-ttl h n s s' e', tt)
  invoke-AreKept ctx (Call.get_events c l) s s' e = tt
  invoke-AreKept ctx Call.storage_utilisation s s' e = tt
  invoke-AreKept ctx Call.is_paused s s' e = tt
  invoke-AreKept ctx Call.event_count s s' e = tt
  invoke-AreKept ctx c s s' e = (instance_ttl h ctx c s s' refl e, tt)
