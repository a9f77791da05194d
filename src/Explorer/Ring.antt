-- ===== src/Explorer/Ring.antt =====
-- explorer/src/lib.rs: the ring buffer of decoded events.
use octraban_contract.Common.{
  ℕ, zero, suc, ◌+◌, ◌-◌, min, max, true, false, not, ◌&&◌, Option, none, some, List, [], ◌∷◌, ◌++◌,
  length, ◌==◌, ltb, leb, str_eq, if◌then◌else◌, unwrap_or, ⊤,
}
use octraban_contract.Host.{
  Action, ◌>>=◌, ◌>>◌, diverge, Host, Invocation, instance_slot, persistent_slot, entry_lease, pure,
  raise_if, unwrap, or_raise, checked_add, checked_rem, require_auth, get, set, extend_ttl, publish,
}
use octraban_contract.Explorer.Types.{
  Error, unauthorized, not_found, below_floor, contract_paused, invalid_input, Address, DataKey,
  admin, event_log, event_seq, max_events, paused, min_max_events, default_max_events,
  max_page_size, event_bump_amount, event_lifetime_threshold, event_version, DecodedEvent,
  EventInput, Value, Val, Published,
}
use octraban_contract.Explorer.Admin.{extend_instance}

module _ (h : Host Value Published) where
  -- `env.storage().persistent().extend_ttl(&key, EVENT_..)`.
  abbrev pub extend_event : DataKey → Action Error h.State ⊤
  extend_event key = extend_ttl h (entry_lease key) event_lifetime_threshold event_bump_amount

  unfoldable pub storage_utilisation : Action Error h.State (ℕ × ℕ)
  storage_utilisation = do
    seq ← get h (instance_slot event_seq)
    cap ← get h (instance_slot max_events)
    let total = unwrap_or seq 0
    let capacity = unwrap_or cap default_max_events
    pure (min total capacity, capacity)

  unfoldable pub event_count : Action Error h.State ℕ
  event_count = do
    seq ← get h (instance_slot event_seq)
    cap ← get h (instance_slot max_events)
    pure (min (unwrap_or seq 0) (unwrap_or cap default_max_events))

  unfoldable pub get_event : ℕ → Action Error h.State DecodedEvent
  get_event seq = do
    cap ← get h (instance_slot max_events)
    slot ← checked_rem seq (unwrap_or cap default_max_events)
    stored ← or_raise (← get h (persistent_slot (event_log slot))) not_found
    raise_if (not (stored.seq == seq)) not_found
    extend_event (event_log slot)
    pure stored

  -- `if let Some(ev) = .. { if ev.seq == seq { out.push_back(ev); } }`.
  abbrev pub push_live : Option DecodedEvent → ℕ → List DecodedEvent → List DecodedEvent
  push_live none seq out = out
  push_live (some ev) seq out = if ev.seq == seq then out ++ (ev ∷ []) else out

  -- `while out.len() < clamped && seq < total_seq { .. }`, which runs its body at most `fuel` times.
  -- `seq += 1` runs only at `seq < total_seq`, so it cannot overflow.
  unfoldable pub get_events_loop :
      ℕ → ℕ → ℕ → ℕ → List DecodedEvent → ℕ → Action Error h.State (List DecodedEvent)
  get_events_loop zero clamped total capacity out seq s =
      if ltb (length out) clamped && ltb seq total then diverge else pure out s
  get_events_loop (suc fuel) clamped total capacity out seq s =
      elim (ltb (length out) clamped && ltb seq total) [
        | true ↦
            (do
              slot ← checked_rem seq capacity
              found ← get h (persistent_slot (event_log slot))
              get_events_loop fuel clamped total capacity (push_live found seq out) (seq + 1))
              s
        | false ↦ pure out s
      ]

  unfoldable pub get_events : ℕ → ℕ → Action Error h.State (List DecodedEvent)
  get_events cursor limit = do
    raise_if (limit == 0) invalid_input
    let clamped = min limit max_page_size
    seq ← get h (instance_slot event_seq)
    cap ← get h (instance_slot max_events)
    let total = unwrap_or seq 0
    let capacity = unwrap_or cap default_max_events
    let oldest = total - capacity
    let start = max cursor oldest
    get_events_loop (total - start) clamped total capacity [] start

module _ (h : Host Value Published) (ctx : Invocation) where
  unfoldable pub set_max_events : Address → ℕ → Action Error h.State ⊤
  set_max_events caller new_max = do
    require_auth ctx caller
    current ← unwrap (← get h (instance_slot admin))
    raise_if (not (caller == current)) unauthorized
    raise_if (ltb new_max min_max_events) below_floor
    set h (instance_slot max_events) new_max
    extend_instance h

  unfoldable pub submit_event : Address → EventInput → Action Error h.State ⊤
  submit_event caller input = do
    require_auth ctx caller
    raise_if (str_eq input.function "") invalid_input
    raise_if (unwrap_or (← get h (instance_slot paused)) false) contract_paused
    current ← unwrap (← get h (instance_slot admin))
    raise_if (not (caller == current)) unauthorized
    stored_seq ← get h (instance_slot event_seq)
    stored_max ← get h (instance_slot max_events)
    let seq = unwrap_or stored_seq 0
    let capacity = unwrap_or stored_max default_max_events
    slot ← checked_rem seq capacity
    let evicting = leb capacity seq
    let evicted_seq = if evicting then seq - capacity else seq
    set h (persistent_slot (event_log slot)) record {
      seq = seq;
      contract_id = input.contract_id;
      function = input.function;
      ledger = input.ledger;
      description = input.description;
      raw_topics = input.raw_topics;
      raw_data = input.raw_data;
    }
    extend_event h (event_log slot)
    next ← checked_add 64 seq 1
    set h (instance_slot event_seq) next
    extend_instance h
    publish h record {
      topics = Val.symbol "ev_sub" ∷ Val.bytes32 input.contract_id ∷ Val.symbol input.function ∷ [];
      payload = Val.u32 event_version ∷ Val.u64 seq ∷ Val.u32 input.ledger ∷ [];
    }
    (if evicting
        then publish h record {
          topics = Val.symbol "cap_hit" ∷ [];
          payload = Val.u32 event_version ∷ Val.u64 evicted_seq ∷ Val.u64 seq ∷ [];
        }
        else pure tt)
    publish h record {
      topics =
          Val.symbol "decoded" ∷ Val.bytes32 input.contract_id ∷ Val.symbol input.function ∷ [];
      payload = Val.u32 event_version ∷ Val.text input.description ∷ [];
    }
