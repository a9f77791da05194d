-- ===== src/Ticket/Terms.antt =====
-- ticket/src/lib.rs: the terms of the sale, and the tickets that carry them.
pub mod Run
use native.Mathlib.Decide.{ℕ_discrete}
use octraban_contract.Common.{
  ℕ, ◌+◌, ◌^◌, ◌==◌, ◌<◌, ◌≤◌, ◌≡◌, ◌≢◌, ◌∙◌, Bool, true, false, ◌&&◌, Option, none, some, List,
  is_some, unwrap_or, String, sym, ap, refl, arith, Option-cases, inl, inr,
}
use octraban_contract.Common.Int.{ℤ}
use octraban_contract.Host.{Outcome, done, panic, trap, diverge, Host, Invocation}
use octraban_contract.Host.Observe.{observe, observe-done}
use octraban_contract.Ticket.Types.{
  Error, Address, TicketStatus, used, transferred, Ticket, Value, Published,
}
use octraban_contract.Ticket.Calls
use octraban_contract.Ticket.Contract.{Call, discard-done, invoke, run}
use octraban_contract.Ticket.View.{View, view}
use octraban_contract.Ticket.Spec
use octraban_contract.Ticket.Refine.{
  run-keeps, initialize-refines, mint_ticket-refines, get_ticket-refines, tickets_sold-refines,
}
use octraban_contract.Ticket.Changes.{
  Rewritten, transfer_ticket-Rewritten, verify_ticket-Rewritten, verify_ticket-refused,
}
use octraban_contract.Ticket.Supply.{IsFresh}
use octraban_contract.Ticket.Replay.{get_ticket_unchanged, tickets_sold_unchanged}

-- What the organizer gave `initialize`.
pub record Terms : Type 0 where
  pub organizer : Address
  pub event_name : String
  pub supply : ℕ
  pub price : ℤ
  pub ceiling : ℤ

-- A ticket with the terms of the sale.
pub record HasTerms (w : Terms) (t : Ticket) : Type 0 where
  pub event_name : t.event_name ≡ w.event_name
  pub original_price : t.original_price ≡ w.price
  pub max_resale_price : t.max_resale_price ≡ w.ceiling

-- The sale is open under the terms, and all tickets carry them.
pub record IsSale (w : Terms) (v : View) : Type 0 where
  pub organizer : v.organizer ≡ some w.organizer
  pub supply : v.supply ≡ some w.supply
  pub cost : v.cost ≡ some w.price
  pub event : v.event ≡ some w.event_name
  pub ceiling : v.ceiling ≡ some w.ceiling
  pub counted : v.minted ≢ none
  pub carried : (id : ℕ) (t : Ticket) → v.tickets id ≡ some t → HasTerms w t

initialize-IsSale :
    (ctx : Invocation) (w : Terms) (v v' : View) {r : Unit {0}}
    → IsFresh v
    → Spec.initialize ctx w.organizer w.event_name w.supply w.price w.ceiling v ≡ done r v'
    → IsSale w v'
unfolding Spec.initialize
initialize-IsSale ctx w v v' fresh e = record {
  organizer = ground arith;
  supply = ground arith;
  cost = ground arith;
  event = ground arith;
  ceiling = ground arith;
  counted = ground arith;
  carried = λ id t held. ground (arith, fresh.tickets id);
}

unsold :
    (w : Terms) (t : Ticket) (to : Address) (status : TicketStatus)
    → HasTerms w t
    → HasTerms w (record t { owner = to; status = status })
unsold w t to status q = record {
  event_name = q.event_name;
  original_price = q.original_price;
  max_resale_price = q.max_resale_price;
}

Rewritten-HasTerms :
    (id : ℕ) (old new : Ticket) (w : Terms) (v v' : View)
    → Rewritten id old new v v'
    → ((j : ℕ) (t : Ticket) → v.tickets j ≡ some t → HasTerms w t)
    → (HasTerms w old → HasTerms w new)
    → (j : ℕ) (t : Ticket) → v'.tickets j ≡ some t
    → HasTerms w t
Rewritten-HasTerms id old new w v v' write carried kept j t held = elim (ℕ_discrete id j) [
  | yes here ↦
      let same : new ≡ t = ground (arith, write.tickets) in
      rw (sym same) (kept (carried id old write.was))
  | no other ↦ carried j t (ground (arith, write.tickets))
]

module _ (ctx : Invocation) (w : Terms) (v v' : View) (p : IsSale w v) where
  mint_ticket-IsSale :
      (a recipient : Address) (id : ℕ)
      → Spec.mint_ticket ctx a recipient v ≡ done id v'
      → IsSale w v'
  unfolding Spec.mint_ticket
  mint_ticket-IsSale a recipient id e = record {
    organizer = ground (arith, p.organizer);
    supply = ground (arith, p.supply);
    cost = ground (arith, p.cost);
    event = ground (arith, p.event);
    ceiling = ground (arith, p.ceiling);
    counted = ground (arith, p.counted);
    carried = λ j t held. record {
      event_name = ground (arith, p.carried j t);
      original_price = ground (arith, p.carried j t);
      max_resale_price = ground (arith, p.carried j t);
    };
  }

  transfer_ticket-IsSale :
      (from to : Address) (id : ℕ) (price : ℤ) {r : Unit {0}}
      → Spec.transfer_ticket ctx from to id price v ≡ done r v'
      → IsSale w v'
  unfolding Spec.transfer_ticket
  transfer_ticket-IsSale from to id price e = record {
    organizer = ground (arith, p.organizer);
    supply = ground (arith, p.supply);
    cost = ground (arith, p.cost);
    event = ground (arith, p.event);
    ceiling = ground (arith, p.ceiling);
    counted = ground (arith, p.counted);
    carried = λ j t held.
        let (old, write, _, _, _, _, _) = transfer_ticket-Rewritten ctx from to id price v v' e in
        Rewritten-HasTerms id old (record old { owner = to; status = transferred }) w v v' write
          p.carried (λ q. unsold w old to transferred q) j t held;
  }

  verify_ticket-carried :
      (a : Address) (id : ℕ) (b : Bool)
      → Spec.verify_ticket ctx a id v ≡ done b v'
      → (j : ℕ) (t : Ticket) → v'.tickets j ≡ some t
      → HasTerms w t
  verify_ticket-carried a id true e j t held =
      let (old, write, _) = verify_ticket-Rewritten ctx a id v v' e in
      Rewritten-HasTerms id old (record old { status = used }) w v v' write p.carried
        (λ q. unsold w old old.owner used q) j t held
  verify_ticket-carried a id false e j t held =
      let unchanged = verify_ticket-refused ctx a id v v' e in
      p.carried j t (sym (ap (λ x. x.tickets j) unchanged) ∙ held)

  verify_ticket-IsSale :
      (a : Address) (id : ℕ) (b : Bool) → Spec.verify_ticket ctx a id v ≡ done b v' → IsSale w v'
  unfolding Spec.verify_ticket
  verify_ticket-IsSale a id b e = record {
    organizer = ground (arith, p.organizer);
    supply = ground (arith, p.supply);
    cost = ground (arith, p.cost);
    event = ground (arith, p.event);
    ceiling = ground (arith, p.ceiling);
    counted = ground (arith, p.counted);
    carried = λ j t held. verify_ticket-carried a id b e j t held;
  }

  upgrade-IsSale : (a hash : ℕ) {r : Unit {0}} → Spec.upgrade ctx a hash v ≡ done r v' → IsSale w v'
  unfolding Spec.upgrade
  upgrade-IsSale a hash e = record {
    organizer = ground (arith, p.organizer);
    supply = ground (arith, p.supply);
    cost = ground (arith, p.cost);
    event = ground (arith, p.event);
    ceiling = ground (arith, p.ceiling);
    counted = ground (arith, p.counted);
    carried = λ j t held. record {
      event_name = ground (arith, p.carried j t);
      original_price = ground (arith, p.carried j t);
      max_resale_price = ground (arith, p.carried j t);
    };
  }

  reopened :
      (a : Address) (name : String) (n : ℕ) (x m : ℤ) {r : Unit {0}}
      → Spec.initialize ctx a name n x m v ≢ done r v'
  unfolding Spec.initialize
  reopened a name n x m e = ground (arith, p.organizer)

invoke-IsSale :
    (ctx : Invocation) (c : Call) (w : Terms) (v v' : View) {r : Unit {0}}
    → Spec.invoke ctx c v ≡ done r v'
    → IsSale w v
    → IsSale w v'
unfolding Spec.invoke
invoke-IsSale ctx (Call.initialize a name n x m) w v v' e p =
    absurd (reopened ctx w v v' p a name n x m e)
invoke-IsSale ctx (Call.mint_ticket a b) w v v' e p =
    let (id, e') = discard-done (Spec.mint_ticket ctx a b) v e in
    mint_ticket-IsSale ctx w v v' p a b id e'
invoke-IsSale ctx (Call.transfer_ticket a b id x) w v v' e p =
    transfer_ticket-IsSale ctx w v v' p a b id x e
invoke-IsSale ctx (Call.verify_ticket a id) w v v' e p =
    let (b, e') = discard-done (Spec.verify_ticket ctx a id) v e in
    verify_ticket-IsSale ctx w v v' p a id b e'
invoke-IsSale ctx (Call.get_ticket id) w v v' e p =
    let (t, e') = discard-done (Spec.get_ticket id) v e in rw (get_ticket_unchanged id v v' e') p
invoke-IsSale ctx Call.tickets_sold w v v' e p =
    let (n, e') = discard-done Spec.tickets_sold v e in rw (tickets_sold_unchanged v v' e') p
invoke-IsSale ctx (Call.upgrade a hash) w v v' e p = upgrade-IsSale ctx w v v' p a hash e
