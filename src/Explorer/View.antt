-- ===== src/Explorer/View.antt =====
-- What can be seen of the explorer's storage through its keys.
use octraban_contract.Common.{ℕ, Bool, Option, List, ◌==◌, ◌&&◌, if◌then◌else◌}
use octraban_contract.Host.{Host, instance_slot, persistent_slot}
use octraban_contract.Explorer.Types.{
  Address, Bytes32, admin, pending_admin, contract, event_log, event_seq, max_events, paused,
  contract_version, ContractMeta, DecodedEvent, Value, Published,
}
pub mod Laws

pub record View : Type 0 where
  pub owner : Option Address
  pub nominee : Option Address
  pub total : Option ℕ
  pub capacity : Option ℕ
  pub frozen : Option Bool
  pub contracts : Bytes32 → Option ContractMeta
  pub versions : Bytes32 → ℕ → Option ContractMeta
  pub log : ℕ → Option DecodedEvent
  pub emitted : List Published
  pub code : Option ℕ

abbrev pub view : (h : Host Value Published) → h.State → View
view h s = record {
  owner = h.get (instance_slot admin) s;
  nominee = h.get (instance_slot pending_admin) s;
  total = h.get (instance_slot event_seq) s;
  capacity = h.get (instance_slot max_events) s;
  frozen = h.get (instance_slot paused) s;
  contracts = λ id. h.get (persistent_slot (contract id)) s;
  versions = λ id v.
      h.get (persistent_slot (contract_version (record { contract_id = id; abi_version = v }))) s;
  log = λ slot. h.get (persistent_slot (event_log slot)) s;
  emitted = h.events s;
  code = h.wasm s;
}

-- A map with the value at one key replaced.
abbrev pub update {ℓ} : {A : Type ℓ} → (ℕ → A) → ℕ → A → ℕ → A
update f k v j = if k == j then v else f j

abbrev pub update₂ {ℓ} : {A : Type ℓ} → (ℕ → ℕ → A) → ℕ → ℕ → A → ℕ → ℕ → A
update₂ f i j v k l = if i == k && j == l then v else f k l
