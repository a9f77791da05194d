-- ===== src/Explorer/Types.antt =====
-- explorer/src/lib.rs, the data: errors, storage keys, constants and records. Addresses, 32-byte
-- ids and wasm hashes are only compared, so they are numbers; symbols and strings are texts.
use octraban_contract.Common.{ℕ, ◌-◌, ◌*◌, Bool, List, String}

-- `enum Error`.
pub data Error : Type 0 where
  not_found unauthorized already_exists below_floor contract_paused invalid_input unsupported :
      Error

abbrev pub Address : Type 0
Address = ℕ

abbrev pub Bytes32 : Type 0
Bytes32 = ℕ

-- `struct VersionKey`.
pub record VersionKey : Type 0 where
  pub contract_id : Bytes32
  pub abi_version : ℕ

-- `enum DataKey`.
pub data DataKey : Type 0 where
  admin pending_admin : DataKey
  contract : Bytes32 → DataKey
  event_log : ℕ → DataKey
  event_seq max_events paused : DataKey
  contract_version : VersionKey → DataKey

abbrev pub min_max_events : ℕ
min_max_events = 1000

abbrev pub default_max_events : ℕ
default_max_events = 50000

abbrev pub max_page_size : ℕ
max_page_size = 500

abbrev pub ledgers_per_day : ℕ
ledgers_per_day = 17280

abbrev pub instance_bump_amount : ℕ
instance_bump_amount = 30 * ledgers_per_day

abbrev pub instance_lifetime_threshold : ℕ
instance_lifetime_threshold = instance_bump_amount - ledgers_per_day

abbrev pub registry_bump_amount : ℕ
registry_bump_amount = 90 * ledgers_per_day

abbrev pub registry_lifetime_threshold : ℕ
registry_lifetime_threshold = registry_bump_amount - ledgers_per_day

abbrev pub event_bump_amount : ℕ
event_bump_amount = 7 * ledgers_per_day

abbrev pub event_lifetime_threshold : ℕ
event_lifetime_threshold = event_bump_amount - ledgers_per_day

abbrev pub event_version : ℕ
event_version = 1

-- `struct ParamDef`.
pub record ParamDef : Type 0 where
  pub name : String
  pub kind : String

-- `struct FunctionAbi`.
pub record FunctionAbi : Type 0 where
  pub name : String
  pub description : String
  pub params : List ParamDef

-- `struct ContractMeta`.
pub record ContractMeta : Type 0 where
  pub version : ℕ
  pub abi_version : ℕ
  pub min_ledger : ℕ
  pub name : String
  pub description : String
  pub functions : List FunctionAbi
  pub registered_by : Address

-- `struct DecodedEvent`; `raw_data` is a list of bytes.
pub record DecodedEvent : Type 0 where
  pub seq : ℕ
  pub contract_id : Bytes32
  pub function : String
  pub ledger : ℕ
  pub description : String
  pub raw_topics : List String
  pub raw_data : List ℕ

-- `struct EventInput`.
pub record EventInput : Type 0 where
  pub contract_id : Bytes32
  pub function : String
  pub ledger : ℕ
  pub description : String
  pub raw_topics : List String
  pub raw_data : List ℕ

-- The type at which the code stores and loads the value of each key.
abbrev pub Value : DataKey → Type 0
Value admin = Address
Value pending_admin = Address
Value (contract _) = ContractMeta
Value (event_log _) = DecodedEvent
Value event_seq = ℕ
Value max_events = ℕ
Value paused = Bool
Value (contract_version _) = ContractMeta

-- A component of the topics or of the data of a published event.
pub data Val : Type 0 where
  symbol text : String → Val
  address bytes32 u32 u64 : ℕ → Val

-- An argument of `env.events().publish(topics, data)`.
pub record Published : Type 0 where
  pub topics : List Val
  pub payload : List Val
