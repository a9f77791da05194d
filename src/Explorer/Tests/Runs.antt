-- ===== src/Explorer/Tests/Runs.antt =====
-- Runs on the model host.
use octraban_contract.Common.{ℕ, ◌≡◌, true, List, [], ◌∷◌, refl}
use octraban_contract.Host.{Outcome, done, Invocation}
use octraban_contract.Explorer.Types.{Error, ContractMeta, EventInput, DecodedEvent}
use octraban_contract.Explorer.Admin
use octraban_contract.Explorer.Ring
use octraban_contract.Explorer.Registry
use octraban_contract.Explorer.Contract.{Call, invoke, run, commit}
use octraban_contract.Explorer.History.{recorded}
use octraban_contract.Explorer.Tests.Model.{host, fresh}

-- Everybody has authorised the invocation.
abbrev pub ctx : Invocation
ctx = record { authorised = λ a. true; sequence = 100; uploaded = λ w. true }

abbrev pub input : ℕ → EventInput
input n = record {
  contract_id = 9;
  function = "swap";
  ledger = n;
  description = "swapped";
  raw_topics = [];
  raw_data = [];
}

abbrev pub submit : ℕ → Invocation × Call
submit n = (ctx, Call.submit_event 1 (input n))

-- The contract opened with a capacity of 2.
abbrev pub opened : host.State
opened = commit (Admin.init host 1 2 fresh) fresh

abbrev pub three : List (Invocation × Call)
three = submit 10 ∷ submit 11 ∷ submit 12 ∷ []

abbrev pub meta : ℕ → ContractMeta
meta n = record {
  version = 1;
  abi_version = n;
  min_ledger = 0;
  name = "dex";
  description = "an exchange";
  functions = [];
  registered_by = 5;
}

-- The contract 7 registered, and updated to version 1.
abbrev pub registered_state : host.State
registered_state = commit (Registry.register_contract host ctx 1 7 (meta 0) opened) opened

abbrev pub updated_state : host.State
updated_state =
    commit (Registry.update_contract host ctx 5 7 (meta 1) registered_state) registered_state

abbrev pub removed_state : host.State
removed_state = commit (Registry.deregister_contract host ctx 5 7 updated_state) updated_state

-- The contract opened and then paused.
abbrev pub paused_state : host.State
paused_state = commit (Admin.pause host ctx 1 opened) opened

-- Three events in a ring of two, and the capacity then raised to 1000.
abbrev pub three_state : host.State
three_state = run host three opened

abbrev pub grown_state : host.State
grown_state = commit (Ring.set_max_events host ctx 1 1000 three_state) three_state

-- Every entry point by its body.
unfoldable pub program : Unit {0}
unfolding invoke run recorded Admin.init Admin.pause Admin.transfer_admin Admin.accept_admin
    Registry.register_contract Registry.update_contract Registry.deregister_contract
    Registry.get_contract Registry.get_contract_version Ring.set_max_events Ring.event_count
    Ring.submit_event Ring.get_event Ring.get_events Ring.get_events_loop
program = tt

ledgers : List DecodedEvent → List ℕ
ledgers [] = []
ledgers (e ∷ es) = e.ledger ∷ ledgers es

page_of : {S : Type 0} → Outcome Error S (List DecodedEvent) → List ℕ
unfolding ledgers
page_of (done es s) = ledgers es
page_of _ = []

-- After three submissions to a ring of two the first page holds the last two.
first_page : page_of (Ring.get_events host 0 10 (run host three opened)) ≡ 11 ∷ 12 ∷ []
unfolding program page_of
first_page = refl
