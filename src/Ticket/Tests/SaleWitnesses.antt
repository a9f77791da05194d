-- ===== src/Ticket/Tests/SaleWitnesses.antt =====
-- The theorems on failures, events and the terms of the sale at concrete inputs.
use octraban_contract.Common.{◌≡◌, true, none, some, List, [], ◌∷◌, ◌++◌, refl, arith}
use octraban_contract.Common.Int.{pos}
use octraban_contract.Host.{done, Invocation}
use octraban_contract.Ticket.Types.{Ticket, valid, used}
use octraban_contract.Ticket.Calls
use octraban_contract.Ticket.Contract.{Call, invoke, run, commit}
use octraban_contract.Ticket.View.{view}
use octraban_contract.Ticket.Supply.{IsFresh}
use octraban_contract.Ticket.Failures.{explained, explained-invoke_ticket}
use octraban_contract.Ticket.Replay.{replay, replayed_tickets}
use octraban_contract.Ticket.Terms.{Terms, HasTerms}
use octraban_contract.Ticket.Terms.Run.{get_ticket-HasTerms, mint_ticket_succeeds}
use octraban_contract.Ticket.Tests.Model.{host, fresh, ctx, sale, minted_state, program}

new_contract : IsFresh (view host fresh)
new_contract = record { organizer = refl; minted = refl; tickets = λ id. refl }

explained-invoke_ticket_example :
    explained ctx
      (Call.transfer_ticket 5 8 3 (pos 70))
      (view host minted_state)
      (invoke host ctx (Call.transfer_ticket 5 8 3 (pos 70)) minted_state)
    ≡ true
explained-invoke_ticket_example =
    explained-invoke_ticket host ctx (Call.transfer_ticket 5 8 3 (pos 70)) minted_state

-- The sale, then ticket 0 resold to 8 and used.
abbrev life : List (Invocation × Call)
life = sale ++ ((ctx, Call.transfer_ticket 5 8 0 (pos 70)) ∷ (ctx, Call.verify_ticket 1 0) ∷ [])

replayed_tickets_example : replay 0 (host.events (run host life fresh)) none ≡ some (8, used)
unfolding program
replayed_tickets_example = replayed_tickets host life fresh 0 new_contract refl

abbrev terms : Terms
terms = record { organizer = 1; event_name = "gala"; supply = 2; price = pos 50; ceiling = pos 80 }

abbrev on_sale : host.State
on_sale = commit (Calls.initialize host ctx 1 "gala" 2 (pos 50) (pos 80) fresh) fresh

-- One ticket of two is sold.
abbrev one_sold : List (Invocation × Call)
one_sold = (ctx, Call.mint_ticket 1 5) ∷ []

abbrev first : Ticket
first = record {
  id = 0;
  owner = 5;
  event_name = "gala";
  status = valid;
  original_price = pos 50;
  max_resale_price = pos 80;
}

get_ticket-HasTerms_example : HasTerms terms first
unfolding program
get_ticket-HasTerms_example =
    get_ticket-HasTerms host ctx terms fresh on_sale one_sold new_contract refl 0 first
      (run host one_sold on_sale) refl

mint_ticket_succeeds_example :
    (later : host.State) × (Calls.mint_ticket host ctx 1 6 (run host one_sold on_sale)
      ≡ done 1 later)
unfolding program
mint_ticket_succeeds_example =
    mint_ticket_succeeds host ctx terms fresh on_sale one_sold new_contract refl ctx 6 1
      (run host one_sold on_sale) refl (omega arith) (omega arith) refl
