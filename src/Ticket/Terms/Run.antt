-- ===== src/Ticket/Terms/Run.antt =====
-- The terms of the sale after any sequence of invocations.
use octraban_contract.Common.{
  ℕ, ◌^◌, ◌==◌, ◌<◌, ◌≡◌, ◌∙◌, Bool, true, false, some, List, unwrap_or, sym, ap, refl, arith,
}
use octraban_contract.Host.{Outcome, done, panic, trap, diverge, Host, Invocation}
use octraban_contract.Host.Observe.{observe, observe-done}
use octraban_contract.Ticket.Types.{Error, Address, Ticket, Value, Published}
use octraban_contract.Ticket.Calls
use octraban_contract.Ticket.Contract.{Call, run}
use octraban_contract.Ticket.View.{View, view}
use octraban_contract.Ticket.Spec
use octraban_contract.Ticket.Refine.{
  run-keeps, initialize-refines, mint_ticket-refines, get_ticket-refines, tickets_sold-refines,
}
use octraban_contract.Ticket.Supply.{IsFresh}
use octraban_contract.Ticket.Terms.{Terms, HasTerms, IsSale, initialize-IsSale, invoke-IsSale}

found-get_ticket :
    (id : ℕ) (v v' : View) (t : Ticket) → Spec.get_ticket id v ≡ done t v' → v.tickets id ≡ some t
unfolding Spec.get_ticket
found-get_ticket id v v' t e = ground arith

sold-minted :
    (sold : ℕ) (v v' : View) → Spec.tickets_sold v ≡ done sold v' → unwrap_or v.minted 0 ≡ sold
unfolding Spec.tickets_sold
sold-minted sold v v' e = ground arith

-- The outcome is a success with that number.
abbrev ends_with : {S : Type 0} → ℕ → Outcome Error S ℕ → Bool
ends_with n (done m s) = n == m
ends_with n (panic e) = false
ends_with n trap = false
ends_with n diverge = false

ends_with-observe :
    {S T : Type 0} (n : ℕ) (f : S → T) (o : Outcome Error S ℕ)
    → ends_with n (observe f o) ≡ ends_with n o
ends_with-observe n f (done m s) = refl
ends_with-observe n f (panic e) = refl
ends_with-observe n f trap = refl
ends_with-observe n f diverge = refl

ends_with-done :
    {S : Type 0} (n : ℕ) (o : Outcome Error S ℕ) → ends_with n o ≡ true → (s : S) × (o ≡ done n s)
ends_with-done n (done m s) e = (s, ground arith)
ends_with-done n (panic x) e = cc
ends_with-done n trap e = cc
ends_with-done n diverge e = cc

minted-next :
    (ctx : Invocation) (w : Terms) (recipient : Address) (sold : ℕ) (v : View)
    → IsSale w v
    → unwrap_or v.minted 0 ≡ sold
    → sold < w.supply
    → w.supply < 2 ^ 64
    → ctx.authorised w.organizer ≡ true
    → ends_with sold (Spec.mint_ticket ctx w.organizer recipient v) ≡ true
unfolding Spec.mint_ticket
minted-next ctx w recipient sold v p counted room fits signed = ground (arith, p.organizer)

module _ (h : Host Value Published) (ctx : Invocation) (w : Terms) (s s' : h.State)
    (cs : List (Invocation × Call)) {r : Unit {0}} (fresh : IsFresh (view h s))
    (opened : Calls.initialize h ctx w.organizer w.event_name w.supply w.price w.ceiling s
      ≡ done r s') where
  run-IsSale : IsSale w (view h (run h cs s'))
  run-IsSale =
      run-keeps h (IsSale w) (λ ctx' c v v' e p. invoke-IsSale ctx' c w v v' e p) cs s'
        (initialize-IsSale ctx w (view h s) (view h s') fresh (
          observe-done (view h)
            (Calls.initialize h ctx w.organizer w.event_name w.supply w.price w.ceiling s) _
            (initialize-refines h ctx w.organizer w.event_name w.supply w.price w.ceiling s)
            opened))

  -- After a successful `initialize` of a new contract and any sequence of invocations after it, by
  -- whomever and however they ended: each ticket that `get_ticket` returns carries the event name,
  -- the price and the ceiling that `initialize` was given.
  pub get_ticket-HasTerms :
      (id : ℕ) (t : Ticket) (s'' : h.State)
      → Calls.get_ticket h id (run h cs s') ≡ done t s''
      → HasTerms w t
  get_ticket-HasTerms id t s'' got = run-IsSale.carried id t (
      found-get_ticket id (view h (run h cs s')) (view h s'') t (
        observe-done (view h) (Calls.get_ticket h id (run h cs s')) _ (get_ticket-refines h id _)
          got))

  -- After a successful `initialize` of a new contract with a supply that a `u64` holds, and any
  -- sequence of invocations after it: a mint that the organizer has authorised succeeds while
  -- `tickets_sold` is below the supply, and returns that number.
  pub mint_ticket_succeeds :
      (ctx' : Invocation) (recipient : Address) (sold : ℕ) (s'' : h.State)
      → Calls.tickets_sold h (run h cs s') ≡ done sold s''
      → sold < w.supply
      → w.supply < 2 ^ 64
      → ctx'.authorised w.organizer ≡ true
      → (later : h.State) × (Calls.mint_ticket h ctx' w.organizer recipient (run h cs s')
          ≡ done sold later)
  mint_ticket_succeeds ctx' recipient sold s'' counted room fits signed =
      let minting = Calls.mint_ticket h ctx' w.organizer recipient (run h cs s') in
      let calm =
        minted-next ctx' w recipient sold (view h (run h cs s')) run-IsSale
          (sold-minted sold (view h (run h cs s')) (view h s'') (
            observe-done (view h) (Calls.tickets_sold h (run h cs s')) _ (tickets_sold-refines h _)
              counted))
          room fits signed in
      ends_with-done sold minting (
        sym (ends_with-observe sold (view h) minting)
        ∙ ap (ends_with sold) (mint_ticket-refines h ctx' w.organizer recipient (run h cs s'))
        ∙ calm)
