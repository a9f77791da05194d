-- ===== src/Ticket/Spec.antt =====
-- What each entry point of the ticket contract promises: its guards in the order in which they are
-- tried, and the change that it makes to what can be seen of the storage.
use octraban_contract.Common.{
  ℕ, ◌+◌, ◌^◌, Bool, true, false, ◌||◌, none, some, [], ◌∷◌, ◌++◌, String, ◌==◌, ltb, if◌then◌else◌,
  is_some, unwrap_or, ⊤,
}
use octraban_contract.Common.Int.{ℤ, pos, ltb_ℤ}
use octraban_contract.Host.{Outcome, done, panic, trap, Action, Invocation}
use octraban_contract.Ticket.Types.{
  Address, TicketStatus, valid, used, transferred, Ticket, Error, not_found, not_initialized,
  already_initialized, negative_price, price_exceeds_ceiling, Val, Published,
}
use octraban_contract.Ticket.Contract.{Call, discard}
use octraban_contract.Ticket.View.{View, update}

module _ {A : Type 0} where
  abbrev pub authorised : Invocation → Address → Outcome Error View A → Outcome Error View A
  authorised ctx a k = if ctx.authorised a then k else trap

  -- The caller is the organizer.
  abbrev pub by_organizer : View → Address → Outcome Error View A → Outcome Error View A
  by_organizer v caller k = elim v.organizer [
    | none ↦ panic not_initialized
    | some a ↦ if caller == a then k else trap
  ]

abbrev pub emit : Published → View → View
emit e v = record v { emitted = v.emitted ++ (e ∷ []) }

abbrev pub is_valid : TicketStatus → Bool
is_valid valid = true
is_valid used = false
is_valid transferred = false

abbrev pub is_used : TicketStatus → Bool
is_used valid = false
is_used used = true
is_used transferred = false

unfoldable pub get_ticket : ℕ → Action Error View Ticket
get_ticket id v = elim (v.tickets id) [ none ↦ panic not_found | some t ↦ done t v ]

unfoldable pub tickets_sold : Action Error View ℕ
tickets_sold v = done (unwrap_or v.minted 0) v

module _ (ctx : Invocation) where
  unfoldable pub initialize : Address → String → ℕ → ℤ → ℤ → Action Error View ⊤
  initialize a name n p m v = authorised ctx a (
      if is_some v.organizer
      then panic already_initialized
      else if ltb_ℤ p (pos 0) || ltb_ℤ m (pos 0)
      then panic negative_price
      else done tt record v {
        organizer = some a;
        supply = some n;
        cost = some p;
        event = some name;
        ceiling = some m;
        minted = some 0;
      })

  -- The ticket that `mint_ticket` would issue next.
  abbrev pub issued : ℕ → Address → String → ℤ → ℤ → Ticket
  issued id recipient name p m = record {
    id = id;
    owner = recipient;
    event_name = name;
    status = valid;
    original_price = p;
    max_resale_price = m;
  }

  unfoldable pub mint_ticket : Address → Address → Action Error View ℕ
  mint_ticket a recipient v = authorised ctx a (
      by_organizer v a elim v.supply [
        | none ↦ trap
        | some n ↦ elim v.minted [ none ↦ trap | some id ↦ if ltb id n then mint id else trap ]
      ])
    where
      mint : ℕ → Outcome Error View ℕ
      mint id = elim v.cost [
        | none ↦ trap
        | some p ↦ elim v.ceiling [
          | none ↦ trap
          | some m ↦ elim v.event [
            | none ↦ trap
            | some name ↦
                let e : Published = record {
                  topics = Val.symbol "MINTED" ∷ Val.address recipient ∷ [];
                  payload = Val.u64 id;
                } in
                let v' = record v {
                  tickets = update v.tickets id (some (issued id recipient name p m));
                  minted = some (id + 1);
                } in
                if ltb (id + 1) (2 ^ 64) then done id (emit e v') else trap
          ]
        ]
      ]

  unfoldable pub transfer_ticket : Address → Address → ℕ → ℤ → Action Error View ⊤
  transfer_ticket from to id price v = authorised ctx from (
      if ltb_ℤ price (pos 0) then panic negative_price else elim (v.tickets id) [
        | none ↦ panic not_found
        | some t ↦
            let e : Published = record {
              topics = Val.symbol "TRANSFER" ∷ Val.address from ∷ Val.address to ∷ [];
              payload = Val.u64 id;
            } in
            let t' = record t { owner = to; status = transferred } in
            if t.owner == from
            then if is_valid t.status
              then if ltb_ℤ t.max_resale_price price
                then panic price_exceeds_ceiling
                else done tt (emit e (record v { tickets = update v.tickets id (some t') }))
              else trap
            else trap
      ])

  unfoldable pub verify_ticket : Address → ℕ → Action Error View Bool
  verify_ticket a id v = authorised ctx a (
      by_organizer v a elim (v.tickets id) [
        | none ↦ trap
        | some t ↦
            let e : Published = record {
              topics = Val.symbol "VERIFIED" ∷ [];
              payload = Val.u64 id;
            } in
            let t' = record t { status = used } in
            if is_used t.status
            then done false v
            else done true (emit e (record v { tickets = update v.tickets id (some t') }))
      ])

  unfoldable pub upgrade : Address → ℕ → Action Error View ⊤
  upgrade a w v =
      let e : Published = record { topics = Val.symbol "upgrade" ∷ []; payload = Val.bytes32 w } in
      authorised ctx a (
        by_organizer v a
          (if ctx.uploaded w then done tt (emit e (record v { code = some w })) else trap))

  unfoldable pub invoke : Call → Action Error View ⊤
  unfolding initialize mint_ticket transfer_ticket verify_ticket get_ticket tickets_sold upgrade
  invoke (Call.initialize a name n p m) = initialize a name n p m
  invoke (Call.mint_ticket a b) = discard (mint_ticket a b)
  invoke (Call.transfer_ticket a b id p) = transfer_ticket a b id p
  invoke (Call.verify_ticket a id) = discard (verify_ticket a id)
  invoke (Call.get_ticket id) = discard (get_ticket id)
  invoke Call.tickets_sold = discard tickets_sold
  invoke (Call.upgrade a w) = upgrade a w
