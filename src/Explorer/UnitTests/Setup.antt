-- ===== src/Explorer/UnitTests/Setup.antt =====
-- explorer/src/lib.rs, `mod tests`: what the tests share. `Address::generate` gives addresses that
-- differ, and an id of 32 equal bytes is the number of that byte; `n` is the current ledger.
use octraban_contract.Common.{
  ℕ, zero, suc, ◌-◌, Bool, true, false, ◌&&◌, Option, none, some, List, [], ◌∷◌, String, ◌==◌,
  str_eq, length, get_elem?, ⊤,
}
use octraban_contract.Host.Script.{◌>>◌, finish, run_call}
use octraban_contract.Explorer.Types.{
  Address, Bytes32, ContractMeta, EventInput, DecodedEvent, Val, Published,
}
use octraban_contract.Explorer.Contract.{Call}
use octraban_contract.Explorer.View.{View}
use octraban_contract.Explorer.Client.{ExplorerScript}

abbrev pub admin : Address
admin = 1

abbrev pub new_admin : Address
new_admin = 2

abbrev pub attacker : Address
attacker = 3

abbrev pub stranger : Address
stranger = 4

abbrev pub registrant : Address
registrant = 5

-- An event with the fields in which the tests differ.
abbrev pub event_input : Bytes32 → String → ℕ → String → EventInput
event_input cid function ledger description = record {
  contract_id = cid;
  function = function;
  ledger = ledger;
  description = description;
  raw_topics = [];
  raw_data = [];
}

abbrev pub make_input : Bytes32 → EventInput
make_input cid = event_input cid "swap" 100 "test"

abbrev pub make_meta : String → Address → ContractMeta
make_meta name by = record {
  version = 1;
  abi_version = 0;
  min_ledger = 0;
  name = name;
  description = "desc";
  functions = [];
  registered_by = by;
}

-- `for _ in 0..k { .. }`.
abbrev pub times : ℕ → ExplorerScript ⊤ → ExplorerScript ⊤
times zero m = finish tt
times (suc k) m = m >> times k m

-- `client.init(&admin, &capacity)`, with which nearly every test begins.
abbrev pub opened : ℕ → ExplorerScript ⊤
opened capacity = run_call (Call.init admin capacity)

abbrev pub submitted : Address → Bytes32 → ExplorerScript ⊤
submitted by cid = run_call (Call.submit_event by (make_input cid))

-- The tests' `ping` events.
abbrev pub ping : Address → Bytes32 → String → ExplorerScript ⊤
ping by cid description = run_call (Call.submit_event by (event_input cid "ping" 1 description))

abbrev pub same_val : Val → Val → Bool
same_val (Val.symbol a) (Val.symbol b) = str_eq a b
same_val (Val.text a) (Val.text b) = str_eq a b
same_val (Val.address a) (Val.address b) = a == b
same_val (Val.bytes32 a) (Val.bytes32 b) = a == b
same_val (Val.u32 a) (Val.u32 b) = a == b
same_val (Val.u64 a) (Val.u64 b) = a == b
same_val _ _ = false

abbrev pub same_vals : List Val → List Val → Bool
same_vals [] [] = true
same_vals [] (y ∷ ys) = false
same_vals (x ∷ xs) [] = false
same_vals (x ∷ xs) (y ∷ ys) = same_val x y && same_vals xs ys

-- `assert_eq!` on the topics and on the data of an event.
abbrev pub is_event : Option Published → List Val → List Val → Bool
is_event none topics payload = false
is_event (some e) topics payload = same_vals e.topics topics && same_vals e.payload payload

-- The k-th event from the end, `events.get(events.len() - k)`.
abbrev pub event_from_end : ℕ → List Published → Option Published
event_from_end k es = get_elem? es (length es - k)

abbrev pub seq_at : List DecodedEvent → ℕ → Option ℕ
seq_at [] i = none
seq_at (e ∷ es) zero = some e.seq
seq_at (e ∷ es) (suc i) = seq_at es i

abbrev pub is_number : Option ℕ → ℕ → Bool
is_number none n = false
is_number (some m) n = m == n

-- A contract that was never called.
abbrev pub blank : View
blank = record {
  owner = none;
  nominee = none;
  total = none;
  capacity = none;
  frozen = none;
  contracts = λ id. none;
  versions = λ id v. none;
  log = λ slot. none;
  emitted = [];
  code = none;
}
