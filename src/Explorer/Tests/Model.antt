-- ===== src/Explorer/Tests/Model.antt =====
-- The keys of the explorer on the model host.
use octraban_contract.Common.{
  ◌≡◌, ◌≢◌, Bool, true, false, ◌&&◌, Option, none, some, [], ◌==◌, if◌then◌else◌, refl, arith,
}
use octraban_contract.Host.{Host}
use octraban_contract.Host.Model.{Keys, model}
use octraban_contract.Explorer.Types.{
  DataKey, VersionKey, admin, pending_admin, contract, event_log, event_seq, max_events, paused,
  contract_version, Value, Published,
}

abbrev pub same_version : VersionKey → VersionKey → Bool
same_version j k = j.contract_id == k.contract_id && j.abi_version == k.abi_version

abbrev pub same : DataKey → DataKey → Bool
same admin admin = true
same pending_admin pending_admin = true
same (contract i) (contract j) = i == j
same (event_log i) (event_log j) = i == j
same event_seq event_seq = true
same max_events max_events = true
same paused paused = true
same (contract_version i) (contract_version j) = same_version i j
same _ _ = false

abbrev pub cast : (j k : DataKey) → Value j → Option (Value k)
cast admin admin v = some v
cast pending_admin pending_admin v = some v
cast (contract i) (contract j) v = if i == j then some v else none
cast (event_log i) (event_log j) v = if i == j then some v else none
cast event_seq event_seq v = some v
cast max_events max_events v = some v
cast paused paused v = some v
cast (contract_version i) (contract_version j) v = if same_version i j then some v else none
cast _ _ v = none

pub same_self : (k : DataKey) → same k k ≡ true
same_self admin = refl
same_self (contract i) = ground arith
same_self (event_log i) = ground arith
same_self (contract_version i) = ground arith
same_self _ = refl

pub same_ne : (j k : DataKey) → j ≢ k → same j k ≡ false
same_ne admin admin ne = absurd (ne refl)
same_ne _ _ ne = ground arith

pub cast_self : (k : DataKey) (v : Value k) → cast k k v ≡ some v
cast_self admin v = refl
cast_self (contract i) v = ground arith
cast_self (event_log i) v = ground arith
cast_self (contract_version i) v = ground arith
cast_self _ v = refl

pub cast_ne : (j k : DataKey) (v : Value j) → j ≢ k → cast j k v ≡ none
cast_ne admin admin v ne = absurd (ne refl)
cast_ne pending_admin pending_admin v ne = absurd (ne refl)
cast_ne (contract i) (contract j) v ne = ground arith
cast_ne (event_log i) (event_log j) v ne = ground arith
cast_ne event_seq event_seq v ne = absurd (ne refl)
cast_ne max_events max_events v ne = absurd (ne refl)
cast_ne paused paused v ne = absurd (ne refl)
cast_ne (contract_version i) (contract_version j) v ne = ground arith
cast_ne _ _ v ne = refl

abbrev pub keys : Keys Value
keys = record {
  same = same;
  same_self = same_self;
  same_ne = same_ne;
  cast = cast;
  cast_self = cast_self;
  cast_ne = cast_ne;
}

abbrev pub host : Host Value Published
host = model keys Published

-- A contract that was never called.
abbrev pub fresh : host.State
fresh = record { entries = λ p. none; leases = λ l. 0; published = []; installed = none }
