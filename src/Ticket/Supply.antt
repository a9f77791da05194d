-- ===== src/Ticket/Supply.antt =====
-- The numbers of the issued tickets: they are the numbers below the counter, which the supply bounds.
use octraban_contract.Common.{
  ℕ, ◌+◌, ◌≤◌, ◌<◌, ◌≡◌, ◌≢◌, ◌∙◌, ◌⊎◌, none, some, List, unwrap_or, refl, arith, Option-cases, inl,
  inr,
}
use native.Mathlib.Decide.{ℕ_discrete, dec_lt}
use octraban_contract.Host.{done, panic, Host, Invocation}
use octraban_contract.Ticket.Types.{
  Address, valid, used, transferred, Ticket, not_found, Value, Published,
}
use octraban_contract.Ticket.Calls
use octraban_contract.Host.Observe.{observe, observe-done}
use octraban_contract.Ticket.Contract.{Call, run}
use octraban_contract.Ticket.View.{View, view}
use octraban_contract.Ticket.Spec
use octraban_contract.Ticket.Refine.{
  run-keeps, mint_ticket-refines, get_ticket-refines, tickets_sold-refines,
}
use octraban_contract.Ticket.Changes.{
  Minted, Rewritten, SameTickets, Started, Change, same_tickets, started, minted, sold, admitted,
  invoke-Change, mint_ticket-Minted,
}

pub record IsSupplied (v : View) : Type 0 where
  pub bounded : unwrap_or v.minted 0 ≤ unwrap_or v.supply 0
  pub numbered :
      (id : ℕ) (t : Ticket) → v.tickets id ≡ some t → (t.id ≡ id) × (id < unwrap_or v.minted 0)
  pub issued : (id : ℕ) → id < unwrap_or v.minted 0 → v.tickets id ≢ none
  pub closed : v.organizer ≡ none → v.minted ≡ none

-- A contract that was never called: nothing is stored.
pub record IsFresh (v : View) : Type 0 where
  pub organizer : v.organizer ≡ none
  pub minted : v.minted ≡ none
  pub tickets : (id : ℕ) → v.tickets id ≡ none

pub IsFresh-IsSupplied : (v : View) → IsFresh v → IsSupplied v
IsFresh-IsSupplied v fresh = record {
  bounded = ground (arith, fresh.minted);
  numbered = λ id t e. ground (arith, fresh.tickets id);
  issued = λ id lt e. ground (arith, fresh.minted);
  closed = λ _. fresh.minted;
}

mint_ticket-IsSupplied :
    (recipient : Address) (id : ℕ) (v v' : View)
    → Minted recipient id v v'
    → IsSupplied v
    → IsSupplied v'
mint_ticket-IsSupplied recipient id v v' m p = record {
  bounded = ground (arith, m.room, m.supply, m.next);
  numbered = λ j t e. elim (ℕ_discrete id j) [
    | yes same ↦ ground (arith, m.tickets, m.number, m.next)
    | no other ↦ ground (arith, m.tickets, m.minted, m.next, p.numbered j t)
  ];
  issued = λ j lt e. ground (arith, m.tickets, m.minted, m.next, p.issued j);
  closed = λ e. ground (arith, p.closed, m.organizer, m.minted);
}

Rewritten-IsSupplied :
    (id : ℕ) (t t' : Ticket) (v v' : View) → Rewritten id t t' v v' → IsSupplied v → IsSupplied v'
Rewritten-IsSupplied id t t' v v' w p = record {
  bounded = ground (arith, w.supply, w.minted, p.bounded);
  numbered =
      λ j x e. ground (arith, w.was, w.number, w.tickets, w.minted, p.numbered j x, p.numbered j t);
  issued = λ j lt e. ground (arith, w.tickets, w.minted, p.issued j);
  closed = λ e. ground (arith, p.closed, w.organizer, w.minted);
}

SameTickets-IsSupplied : (v v' : View) → SameTickets v v' → IsSupplied v → IsSupplied v'
SameTickets-IsSupplied v v' same p = record {
  bounded = ground (arith, same.supply, same.minted, p.bounded);
  numbered = λ j x e. ground (arith, same.tickets, same.minted, p.numbered j x);
  issued = λ j lt e. ground (arith, same.tickets, same.minted, p.issued j);
  closed = λ e. ground (arith, p.closed, same.organizer, same.minted);
}

Started-IsSupplied : (v v' : View) → Started v v' → IsSupplied v → IsSupplied v'
Started-IsSupplied v v' st p = record {
  bounded = ground (arith, st.minted);
  numbered = λ id t e. ground (arith, st.tickets, st.unopened, p.closed, p.numbered id t);
  issued = λ id lt e. ground (arith, st.minted);
  closed = λ e. absurd (st.organizer e);
}

pub Change-IsSupplied :
    (ctx : Invocation) (c : Call) (v v' : View) → Change ctx c v v' → IsSupplied v → IsSupplied v'
Change-IsSupplied ctx c v v' (same_tickets same) p = SameTickets-IsSupplied v v' same p
Change-IsSupplied ctx c v v' (started st) p = Started-IsSupplied v v' st p
Change-IsSupplied ctx c v v' (minted b id m) p = mint_ticket-IsSupplied b id v v' m p
Change-IsSupplied ctx c v v' (sold t id b x _ w _ _ _ _) p =
    Rewritten-IsSupplied id t (record t { owner = b; status = transferred }) v v' w p
Change-IsSupplied ctx c v v' (admitted t id w _) p =
    Rewritten-IsSupplied id t (record t { status = used }) v v' w p

-- After any sequence of invocations on a new contract no more tickets are issued than the supply
-- allows, the issued tickets are those numbered below the counter, without a gap, and each of them
-- carries the number under which it is stored.
pub run-IsSupplied :
    (h : Host Value Published) (cs : List (Invocation × Call)) (s : h.State)
    → IsFresh (view h s)
    → IsSupplied (view h (run h cs s))
run-IsSupplied h cs s fresh =
    run-keeps h IsSupplied
      (λ ctx c v v' e p. Change-IsSupplied ctx c v v' (invoke-Change ctx c v v' e) p) cs s
      (IsFresh-IsSupplied (view h s) fresh)

tickets_sold_of : (v : View) → Spec.tickets_sold v ≡ done (unwrap_or v.minted 0) v
unfolding Spec.tickets_sold
tickets_sold_of v = refl

-- Below the counter `get_ticket` returns the ticket of that number, from the counter on nothing.
get_ticket_of :
    (id : ℕ) (v : View)
    → IsSupplied v
    → ((id < unwrap_or v.minted 0)
        × ((t : Ticket) × (t.id ≡ id) × (Spec.get_ticket id v ≡ done t v)))
      ⊎ ((unwrap_or v.minted 0 ≤ id) × (Spec.get_ticket id v ≡ panic not_found))
unfolding Spec.get_ticket
get_ticket_of id v p = elim (dec_lt id (unwrap_or v.minted 0)) [
  | yes lt ↦ elim (Option-cases (v.tickets id)) [
    | inl absent ↦ absurd (p.issued id lt absent)
    | inr (t, held) ↦ inl (lt, (t, (p.numbered id t held).0, ground arith))
  ]
  | no ge ↦ elim (Option-cases (v.tickets id)) [
    | inl absent ↦ inr (omega arith, ground arith)
    | inr (t, held) ↦ absurd (ge (p.numbered id t held).1)
  ]
]

-- After any sequence of invocations on a new contract `tickets_sold` returns a number that does not
-- exceed the stored supply; `get_ticket` returns for a number below it the ticket of that
-- number, and ends with `NotFound` for every other one.
pub get_ticket-tickets_sold :
    (h : Host Value Published) (cs : List (Invocation × Call)) (s : h.State) (id : ℕ)
    → IsFresh (view h s)
    → let v = view h (run h cs s) in
      (sold : ℕ) × (observe (view h) (Calls.tickets_sold h (run h cs s)) ≡ done sold v)
      × (sold ≤ unwrap_or v.supply 0)
      × (((id < sold)
            × ((t : Ticket) × (t.id ≡ id)
                × (observe (view h) (Calls.get_ticket h id (run h cs s)) ≡ done t v)))
          ⊎ ((sold ≤ id)
              × (observe (view h) (Calls.get_ticket h id (run h cs s)) ≡ panic not_found)))
get_ticket-tickets_sold h cs s id fresh =
    let s' = run h cs s in
    let p = run-IsSupplied h cs s fresh in
    (
      unwrap_or (view h s').minted 0,
      tickets_sold-refines h s' ∙ tickets_sold_of (view h s'),
      p.bounded,
      elim (get_ticket_of id (view h s') p) [
        | inl (lt, (t, same, found)) ↦ inl (lt, (t, same, get_ticket-refines h id s' ∙ found))
        | inr (ge, found) ↦ inr (ge, get_ticket-refines h id s' ∙ found)
      ],
    )

Minted-get_ticket :
    (recipient : Address) (id : ℕ) (v v' : View)
    → (m : Minted recipient id v v') → Spec.get_ticket id v' ≡ done m.ticket v'
unfolding Spec.get_ticket
Minted-get_ticket recipient id v v' m = ground (arith, m.tickets)

Minted-tickets_sold :
    (recipient : Address) (id : ℕ) (v v' : View)
    → Minted recipient id v v'
    → (Spec.tickets_sold v ≡ done id v) × (Spec.tickets_sold v' ≡ done (id + 1) v')
unfolding Spec.tickets_sold
Minted-tickets_sold recipient id v v' m = (ground (arith, m.minted), ground (arith, m.next))

-- A successful mint returns the number that `tickets_sold` returned before, `tickets_sold` returns
-- one more after it, and `get_ticket` of that number then returns a valid ticket of the recipient.
pub get_ticket-mint_ticket :
    (h : Host Value Published) (ctx : Invocation) (a recipient : Address) (id : ℕ) (s s' : h.State)
    → Calls.mint_ticket h ctx a recipient s ≡ done id s'
    → (observe (view h) (Calls.tickets_sold h s) ≡ done id (view h s))
      × (observe (view h) (Calls.tickets_sold h s') ≡ done (id + 1) (view h s'))
      × ((t : Ticket) × (t.id ≡ id)
          × (t.owner ≡ recipient)
          × (t.status ≡ valid)
          × (observe (view h) (Calls.get_ticket h id s') ≡ done t (view h s')))
get_ticket-mint_ticket h ctx a recipient id s s' e =
    let m = mint_ticket-Minted ctx a recipient id (view h s) (view h s') (
      observe-done (view h) (Calls.mint_ticket h ctx a recipient s) _
        (mint_ticket-refines h ctx a recipient s) e) in
    let sold = Minted-tickets_sold recipient id (view h s) (view h s') m in
    (
      tickets_sold-refines h s ∙ sold.0,
      tickets_sold-refines h s' ∙ sold.1,
      (
        m.ticket,
        m.number,
        m.owner,
        m.fresh,
        get_ticket-refines h id s' ∙ Minted-get_ticket recipient id (view h s) (view h s') m,
      ),
    )
