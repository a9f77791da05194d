-- ===== src/Ticket/Tests/Witnesses.antt =====
-- The theorems on the ticket contract at concrete inputs.
use octraban_contract.Common.{
  ℕ, ◌≤◌, ◌<◌, ◌≡◌, ◌≢◌, ◌⊎◌, true, false, some, List, [], ◌∷◌, ◌++◌, refl, arith,
}
use octraban_contract.Common.Int.{ℤ, pos, ltb_ℤ}
use octraban_contract.Host.{done, panic, Invocation}
use octraban_contract.Host.Observe.{observe}
use octraban_contract.Ticket.Types.{Ticket, valid, transferred, not_found}
use octraban_contract.Ticket.Calls
use octraban_contract.Ticket.Contract.{Call, run, commit}
use octraban_contract.Ticket.View.{view}
use octraban_contract.Ticket.Client.{perform, specified, perform-refines_ticket}
use octraban_contract.Ticket.Supply.{
  IsFresh, IsSupplied, run-IsSupplied, get_ticket-tickets_sold, get_ticket-mint_ticket,
}
use octraban_contract.Ticket.Lifecycle.{IsLater, run-IsTraced, admitted_once}
use octraban_contract.Ticket.Ownership.{owner_changes}
use octraban_contract.Ticket.Tests.Model.{
  host, fresh, ctx, sale, minted_state, resold_state, admitted_state, program,
}

fresh-IsFresh : IsFresh (view host fresh)
fresh-IsFresh = record { organizer = refl; minted = refl; tickets = λ id. refl }

supplied : IsSupplied (view host minted_state)
supplied = run-IsSupplied host sale fresh fresh-IsFresh

abbrev resale : List (Invocation × Call)
resale = (ctx, Call.transfer_ticket 5 8 0 (pos 70)) ∷ []

-- The ticket numbered 0 as it was minted.
abbrev first_ticket : Ticket
first_ticket = record {
  id = 0;
  owner = 5;
  event_name = "gala";
  status = valid;
  original_price = pos 50;
  max_resale_price = pos 80;
}

perform-refines_ticket_example :
    observe (view host) (perform host ctx (Call.verify_ticket 1 0) resold_state)
    ≡ specified ctx (Call.verify_ticket 1 0) (view host resold_state)
perform-refines_ticket_example =
    perform-refines_ticket host ctx (Call.verify_ticket 1 0) resold_state

run-IsSupplied_example : IsSupplied (view host minted_state)
run-IsSupplied_example = run-IsSupplied host sale fresh fresh-IsFresh

get_ticket-tickets_sold_example :
    (sold : ℕ) × (observe (view host) (Calls.tickets_sold host minted_state)
      ≡ done sold (view host minted_state))
    × (sold ≤ 2)
    × (((1 < sold)
          × ((t : Ticket) × (t.id ≡ 1)
              × (observe (view host) (Calls.get_ticket host 1 minted_state)
                  ≡ done t (view host minted_state))))
        ⊎ ((sold ≤ 1)
            × (observe (view host) (Calls.get_ticket host 1 minted_state) ≡ panic not_found)))
unfolding program
get_ticket-tickets_sold_example = get_ticket-tickets_sold host sale fresh 1 fresh-IsFresh

-- The ticket numbered 0 in the hands of its buyer.
abbrev sold_ticket : Ticket
sold_ticket = record first_ticket { owner = 8; status = transferred }

abbrev checks : List (Invocation × Call)
checks = (ctx, Call.verify_ticket 1 0) ∷ (ctx, Call.verify_ticket 1 0) ∷ []

run-IsTraced_example :
    (now : Ticket) × ((view host (run host checks minted_state)).tickets 0 ≡ some now)
    × IsLater first_ticket now
unfolding program
run-IsTraced_example = run-IsTraced host checks minted_state 0 first_ticket supplied refl

resold-IsSupplied : IsSupplied (view host resold_state)
unfolding program
resold-IsSupplied = run-IsSupplied host (sale ++ resale) fresh fresh-IsFresh

admitted_once_example :
    Calls.verify_ticket host ctx 1 0 (run host checks admitted_state) ≢ done true admitted_state
unfolding program
admitted_once_example =
    admitted_once host ctx ctx 1 1 0 checks resold_state admitted_state admitted_state
      resold-IsSupplied refl

eight_ne_five : ◌≢◌ {A = ℕ} 8 5
eight_ne_five = omega arith

owner_changes_example :
    (true ≡ true)
    × (valid ≡ valid)
    × (transferred ≡ transferred)
    × ((price : ℤ) × (Call.transfer_ticket 5 8 0 (pos 70) ≡ Call.transfer_ticket 5 8 0 price)
        × (ltb_ℤ price (pos 0) ≡ false)
        × (ltb_ℤ (pos 80) price ≡ false))
unfolding program
owner_changes_example =
    owner_changes host ctx (Call.transfer_ticket 5 8 0 (pos 70)) minted_state resold_state 0
      first_ticket sold_ticket supplied refl refl refl eight_ne_five

abbrev one_minted : host.State
one_minted =
    run host
      ((ctx, Call.initialize 1 "gala" 2 (pos 50) (pos 80)) ∷ (ctx, Call.mint_ticket 1 5) ∷ []) fresh

abbrev two_minted : host.State
two_minted = commit (Calls.mint_ticket host ctx 1 6 one_minted) one_minted

get_ticket-mint_ticket_example :
    (observe (view host) (Calls.tickets_sold host one_minted) ≡ done 1 (view host one_minted))
    × (observe (view host) (Calls.tickets_sold host two_minted) ≡ done 2 (view host two_minted))
    × ((t : Ticket) × (t.id ≡ 1)
        × (t.owner ≡ 6)
        × (t.status ≡ valid)
        × (observe (view host) (Calls.get_ticket host 1 two_minted)
            ≡ done t (view host two_minted)))
unfolding program
get_ticket-mint_ticket_example = get_ticket-mint_ticket host ctx 1 6 1 one_minted two_minted refl
