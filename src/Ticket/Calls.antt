-- ===== src/Ticket/Calls.antt =====
-- ticket/src/lib.rs, the entry points. A returned `Err(e)` ends the invocation with the contract
-- error `e`.
use octraban_contract.Common.{
  ℕ, Bool, true, false, not, ◌||◌, [], ◌∷◌, String, ◌==◌, ltb, if◌then◌else◌, unwrap_or, ⊤,
}
use octraban_contract.Common.Int.{ℤ, pos, ltb_ℤ}
use octraban_contract.Host.{
  Action, ◌>>=◌, ◌>>◌, Host, Invocation, instance_slot, persistent_slot, pure, raise_if, trap_if,
  unwrap, or_raise, checked_add, require_auth, get, has, set, publish, update_current_contract_wasm,
}
use octraban_contract.Ticket.Types.{
  Address, admin, max_tix, price, next_id, evt_name, maxresale, ticket, valid, used, transferred,
  same_status, Ticket, Error, not_found, not_initialized, already_initialized, negative_price,
  price_exceeds_ceiling, Value, Val, Published,
}

module _ (h : Host Value Published) where
  unfoldable pub get_ticket : ℕ → Action Error h.State Ticket
  get_ticket ticket_id = do or_raise (← get h (persistent_slot (ticket ticket_id))) not_found

  unfoldable pub tickets_sold : Action Error h.State ℕ
  tickets_sold = do pure (unwrap_or (← get h (instance_slot next_id)) 0)

module _ (h : Host Value Published) (ctx : Invocation) where
  unfoldable pub initialize : Address → String → ℕ → ℤ → ℤ → Action Error h.State ⊤
  initialize organizer event_name max_tickets price_ max_resale_price = do
    require_auth ctx organizer
    raise_if (← has h (instance_slot admin)) already_initialized
    raise_if (ltb_ℤ price_ (pos 0) || ltb_ℤ max_resale_price (pos 0)) negative_price
    set h (instance_slot admin) organizer
    set h (instance_slot max_tix) max_tickets
    set h (instance_slot price) price_
    set h (instance_slot evt_name) event_name
    set h (instance_slot maxresale) max_resale_price
    set h (instance_slot next_id) 0

  unfoldable pub mint_ticket : Address → Address → Action Error h.State ℕ
  mint_ticket organizer recipient = do
    require_auth ctx organizer
    current ← or_raise (← get h (instance_slot admin)) not_initialized
    trap_if (not (organizer == current))
    supply ← unwrap (← get h (instance_slot max_tix))
    id ← unwrap (← get h (instance_slot next_id))
    trap_if (not (ltb id supply))
    original ← unwrap (← get h (instance_slot price))
    max_resale ← unwrap (← get h (instance_slot maxresale))
    name ← unwrap (← get h (instance_slot evt_name))
    set h (persistent_slot (ticket id)) record {
      id = id;
      owner = recipient;
      event_name = name;
      status = valid;
      original_price = original;
      max_resale_price = max_resale;
    }
    next ← checked_add 64 id 1
    set h (instance_slot next_id) next
    publish h
        record { topics = Val.symbol "MINTED" ∷ Val.address recipient ∷ []; payload = Val.u64 id }
    pure id

  unfoldable pub transfer_ticket : Address → Address → ℕ → ℤ → Action Error h.State ⊤
  transfer_ticket from to ticket_id sale_price = do
    require_auth ctx from
    raise_if (ltb_ℤ sale_price (pos 0)) negative_price
    t ← or_raise (← get h (persistent_slot (ticket ticket_id))) not_found
    trap_if (not (t.owner == from))
    trap_if (not (same_status t.status valid))
    raise_if (ltb_ℤ t.max_resale_price sale_price) price_exceeds_ceiling
    set h (persistent_slot (ticket ticket_id)) (record t { owner = to; status = transferred })
    publish h record {
      topics = Val.symbol "TRANSFER" ∷ Val.address from ∷ Val.address to ∷ [];
      payload = Val.u64 ticket_id;
    }

  unfoldable pub verify_ticket : Address → ℕ → Action Error h.State Bool
  verify_ticket verifier ticket_id = do
    require_auth ctx verifier
    current ← or_raise (← get h (instance_slot admin)) not_initialized
    trap_if (not (verifier == current))
    t ← unwrap (← get h (persistent_slot (ticket ticket_id)))
    (if same_status t.status valid || same_status t.status transferred
        then (do
          set h (persistent_slot (ticket ticket_id)) (record t { status = used })
          publish h record { topics = Val.symbol "VERIFIED" ∷ []; payload = Val.u64 ticket_id }
          pure true)
        else pure false)

  unfoldable pub upgrade : Address → ℕ → Action Error h.State ⊤
  upgrade caller new_wasm_hash = do
    require_auth ctx caller
    current ← or_raise (← get h (instance_slot admin)) not_initialized
    trap_if (not (caller == current))
    update_current_contract_wasm h ctx new_wasm_hash
    publish h record { topics = Val.symbol "upgrade" ∷ []; payload = Val.bytes32 new_wasm_hash }
