-- ===== src/Explorer/Spec/Ring.antt =====
-- The ring buffer of events.
use octraban_contract.Common.{
  ℕ, zero, suc, ◌+◌, ◌-◌, ◌%◌, ◌^◌, min, max, ◌&&◌, Option, none, some, List, [], ◌∷◌, ◌==◌, ltb,
  leb, take, str_eq, if◌then◌else◌, unwrap_or, ⊤,
}
use octraban_contract.Host.{done, panic, trap, Action, Invocation}
use octraban_contract.Explorer.Types.{
  Error, not_found, below_floor, invalid_input, Address, min_max_events, default_max_events,
  max_page_size, event_version, DecodedEvent, EventInput, Val, Published,
}
use octraban_contract.Explorer.View.{View, update}
use octraban_contract.Explorer.Spec.Guards.{authorised, running, by_owner, emit}

-- How many events were submitted, and how many the ring holds.
abbrev pub total_of : View → ℕ
total_of v = unwrap_or v.total 0

abbrev pub capacity_of : View → ℕ
capacity_of v = unwrap_or v.capacity default_max_events

unfoldable pub event_count : Action Error View ℕ
event_count v = done (min (total_of v) (capacity_of v)) v

unfoldable pub storage_utilisation : Action Error View (ℕ × ℕ)
storage_utilisation v = done (min (total_of v) (capacity_of v), capacity_of v) v

unfoldable pub get_event : ℕ → Action Error View DecodedEvent
get_event seq v = if capacity_of v == 0 then trap else elim (v.log (seq % capacity_of v)) [
  | none ↦ panic not_found
  | some e ↦ if e.seq == seq then done e v else panic not_found
]

-- The events numbered from `seq` on, among `n` numbers, that are in their slots.
unfoldable pub live : (ℕ → Option DecodedEvent) → ℕ → ℕ → ℕ → List DecodedEvent
live log capacity seq zero = []
live log capacity seq (suc n) =
    let rest = live log capacity (seq + 1) n in
    elim (log (seq % capacity)) [ none ↦ rest | some e ↦ if e.seq == seq then e ∷ rest else rest ]

-- The number from which a page begins.
abbrev pub start_of : View → ℕ → ℕ
start_of v cursor = max cursor (total_of v - capacity_of v)

unfoldable pub get_events : ℕ → ℕ → Action Error View (List DecodedEvent)
get_events cursor limit v =
    if limit == 0
    then panic invalid_input
    else if capacity_of v == 0 && ltb (start_of v cursor) (total_of v)
    then trap
    else done
        (take (min limit max_page_size)
          (live v.log (capacity_of v) (start_of v cursor) (total_of v - start_of v cursor)))
        v

-- The stored form of a submission.
abbrev pub decoded : ℕ → EventInput → DecodedEvent
decoded seq input = record {
  seq = seq;
  contract_id = input.contract_id;
  function = input.function;
  ledger = input.ledger;
  description = input.description;
  raw_topics = input.raw_topics;
  raw_data = input.raw_data;
}

-- What a submission publishes.
abbrev pub announced : ℕ → ℕ → EventInput → List Published
announced seq capacity input =
    let submitted : Published = record {
      topics = Val.symbol "ev_sub" ∷ Val.bytes32 input.contract_id ∷ Val.symbol input.function ∷ [];
      payload = Val.u32 event_version ∷ Val.u64 seq ∷ Val.u32 input.ledger ∷ [];
    } in
    let evicted : Published = record {
      topics = Val.symbol "cap_hit" ∷ [];
      payload = Val.u32 event_version ∷ Val.u64 (seq - capacity) ∷ Val.u64 seq ∷ [];
    } in
    let described : Published = record {
      topics =
          Val.symbol "decoded" ∷ Val.bytes32 input.contract_id ∷ Val.symbol input.function ∷ [];
      payload = Val.u32 event_version ∷ Val.text input.description ∷ [];
    } in
    if leb capacity seq then submitted ∷ evicted ∷ described ∷ [] else submitted ∷ described ∷ []

module _ (ctx : Invocation) (caller : Address) where
  unfoldable pub set_max_events : ℕ → Action Error View ⊤
  set_max_events new_max v = authorised ctx caller (
      by_owner v caller (
        if ltb new_max min_max_events
        then panic below_floor
        else done tt (record v { capacity = some new_max })))

  unfoldable pub submit_event : EventInput → Action Error View ⊤
  submit_event input v =
      let seq = total_of v in
      let slot = seq % capacity_of v in
      let v' = record v {
        total = some (seq + 1);
        log = update v.log slot (some (decoded seq input));
      } in
      authorised ctx caller (
        if str_eq input.function ""
        then panic invalid_input
        else running v (
            by_owner v caller (
              if capacity_of v == 0
              then trap
              else if ltb (seq + 1) (2 ^ 64)
              then done tt (emit (announced seq (capacity_of v) input) v')
              else trap)))
