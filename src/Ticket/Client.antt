-- ===== src/Ticket/Client.antt =====
-- The client that `soroban_sdk` generates for the ticket contract: the reply of each call, and the
-- contract as what drives a script of calls.
use octraban_contract.Common.{ℕ, ◌≡◌, Bool, refl, sym, ap, ◌∙◌, ⊤}
use octraban_contract.Host.{Action, Host, Invocation}
use octraban_contract.Host.Observe.{observe}
use octraban_contract.Host.Script.{Script, Driver, play, play-observe, passes, passes-observe}
use octraban_contract.Ticket.Types.{Error, Ticket, Value, Published}
use octraban_contract.Ticket.Calls
use octraban_contract.Ticket.Contract.{Call}
use octraban_contract.Ticket.View.{View, view}
use octraban_contract.Ticket.Spec
use octraban_contract.Ticket.Refine.{
  initialize-refines, mint_ticket-refines, transfer_ticket-refines, verify_ticket-refines,
  get_ticket-refines, tickets_sold-refines, upgrade-refines,
}

abbrev pub Reply : Call → Type 0
Reply (Call.initialize _ _ _ _ _) = ⊤
Reply (Call.mint_ticket _ _) = ℕ
Reply (Call.transfer_ticket _ _ _ _) = ⊤
Reply (Call.verify_ticket _ _) = Bool
Reply (Call.get_ticket _) = Ticket
Reply Call.tickets_sold = ℕ
Reply (Call.upgrade _ _) = ⊤

abbrev pub TicketScript : Type 0 → Type 0
TicketScript A = Script Reply Error Published A

unfoldable pub perform :
    (h : Host Value Published) → Invocation → (c : Call) → Action Error h.State (Reply c)
perform h ctx (Call.initialize a name n p m) = Calls.initialize h ctx a name n p m
perform h ctx (Call.mint_ticket a b) = Calls.mint_ticket h ctx a b
perform h ctx (Call.transfer_ticket a b id p) = Calls.transfer_ticket h ctx a b id p
perform h ctx (Call.verify_ticket a id) = Calls.verify_ticket h ctx a id
perform h ctx (Call.get_ticket id) = Calls.get_ticket h id
perform h ctx Call.tickets_sold = Calls.tickets_sold h
perform h ctx (Call.upgrade a w) = Calls.upgrade h ctx a w

abbrev pub specified : Invocation → (c : Call) → Action Error View (Reply c)
specified ctx (Call.initialize a name n p m) = Spec.initialize ctx a name n p m
specified ctx (Call.mint_ticket a b) = Spec.mint_ticket ctx a b
specified ctx (Call.transfer_ticket a b id p) = Spec.transfer_ticket ctx a b id p
specified ctx (Call.verify_ticket a id) = Spec.verify_ticket ctx a id
specified ctx (Call.get_ticket id) = Spec.get_ticket id
specified ctx Call.tickets_sold = Spec.tickets_sold
specified ctx (Call.upgrade a w) = Spec.upgrade ctx a w

abbrev pub contract : (h : Host Value Published) → Invocation → Driver Reply Error Published h.State
contract h ctx = record { perform = perform h ctx; log = h.events }

abbrev pub spec_contract : Invocation → Driver Reply Error Published View
spec_contract ctx = record { perform = specified ctx; log = λ v. v.emitted }

module _ (h : Host Value Published) (ctx : Invocation) where
  -- Over every host, each entry point of the ticket contract ends as its specification says: in the
  -- same way, with the same result or error, and with the change of the visible storage that is
  -- specified.
  pub perform-refines_ticket :
      (c : Call) (s : h.State) → observe (view h) (perform h ctx c s) ≡ specified ctx c (view h s)
  unfolding perform
  perform-refines_ticket (Call.initialize a name n p m) s = initialize-refines h ctx a name n p m s
  perform-refines_ticket (Call.mint_ticket a b) s = mint_ticket-refines h ctx a b s
  perform-refines_ticket (Call.transfer_ticket a b id p) s =
      transfer_ticket-refines h ctx a b id p s
  perform-refines_ticket (Call.verify_ticket a id) s = verify_ticket-refines h ctx a id s
  perform-refines_ticket (Call.get_ticket id) s = get_ticket-refines h id s
  perform-refines_ticket Call.tickets_sold s = tickets_sold-refines h s
  perform-refines_ticket (Call.upgrade a w) s = upgrade-refines h ctx a w s

  -- A script over the contract is seen to end as over its specification.
  pub script-refines :
      {A : Type 0} (m : TicketScript A) (s : h.State)
      → observe (view h) (play (contract h ctx) m s) ≡ play (spec_contract ctx) m (view h s)
  script-refines m s =
      play-observe (view h) (contract h ctx) (spec_contract ctx) perform-refines_ticket (λ t. refl)
        m s

  pub script-passes :
      {A : Type 0} (m : TicketScript A) (s : h.State)
      → passes (play (contract h ctx) m s) ≡ passes (play (spec_contract ctx) m (view h s))
  script-passes m s =
      sym (passes-observe (view h) (play (contract h ctx) m s)) ∙ ap passes (script-refines m s)
