-- ===== src/Ticket/Tests/Model.antt =====
-- The keys of the ticket contract on the model host, and runs on it.
use octraban_contract.Common.{
  ◌≡◌, ◌≢◌, Bool, true, false, Option, none, some, List, [], ◌∷◌, ◌==◌, if◌then◌else◌, refl, arith,
}
use octraban_contract.Common.Int.{pos}
use octraban_contract.Host.{Host, Invocation}
use octraban_contract.Host.Model.{Keys, model}
use octraban_contract.Ticket.Types.{
  Key, admin, max_tix, price, next_id, evt_name, maxresale, ticket, Value, Published,
}
use octraban_contract.Ticket.Calls
use octraban_contract.Ticket.Contract.{Call, invoke, run, commit}

abbrev pub same : Key → Key → Bool
same admin admin = true
same max_tix max_tix = true
same price price = true
same next_id next_id = true
same evt_name evt_name = true
same maxresale maxresale = true
same (ticket i) (ticket j) = i == j
same _ _ = false

abbrev pub cast : (j k : Key) → Value j → Option (Value k)
cast admin admin v = some v
cast max_tix max_tix v = some v
cast price price v = some v
cast next_id next_id v = some v
cast evt_name evt_name v = some v
cast maxresale maxresale v = some v
cast (ticket i) (ticket j) v = if i == j then some v else none
cast _ _ v = none

pub same_self : (k : Key) → same k k ≡ true
same_self admin = refl
same_self (ticket i) = ground arith
same_self _ = refl

pub same_ne : (j k : Key) → j ≢ k → same j k ≡ false
same_ne admin admin ne = absurd (ne refl)
same_ne _ _ ne = ground arith

pub cast_self : (k : Key) (v : Value k) → cast k k v ≡ some v
cast_self admin v = refl
cast_self (ticket i) v = ground arith
cast_self _ v = refl

pub cast_ne : (j k : Key) (v : Value j) → j ≢ k → cast j k v ≡ none
cast_ne admin admin v ne = absurd (ne refl)
cast_ne max_tix max_tix v ne = absurd (ne refl)
cast_ne price price v ne = absurd (ne refl)
cast_ne next_id next_id v ne = absurd (ne refl)
cast_ne evt_name evt_name v ne = absurd (ne refl)
cast_ne maxresale maxresale v ne = absurd (ne refl)
cast_ne (ticket i) (ticket j) v ne = ground arith
cast_ne _ _ v ne = refl

abbrev pub keys : Keys Value
keys = record {
  same = same;
  same_self = same_self;
  same_ne = same_ne;
  cast = cast;
  cast_self = cast_self;
  cast_ne = cast_ne;
}

abbrev pub host : Host Value Published
host = model keys Published

-- A contract that was never called.
abbrev pub fresh : host.State
fresh = record { entries = λ p. none; leases = λ l. 0; published = []; installed = none }

-- Everybody has authorised the invocation.
abbrev pub ctx : Invocation
ctx = record { authorised = λ a. true; sequence = 100; uploaded = λ w. true }

-- A sale of two tickets at 50, to be resold for at most 80, with both minted.
abbrev pub sale : List (Invocation × Call)
sale =
    (ctx, Call.initialize 1 "gala" 2 (pos 50) (pos 80))
    ∷ (ctx, Call.mint_ticket 1 5)
    ∷ (ctx, Call.mint_ticket 1 6)
    ∷ (ctx, Call.mint_ticket 1 7)
    ∷ []

abbrev pub minted_state : host.State
minted_state = run host sale fresh

abbrev pub resold_state : host.State
resold_state = commit (Calls.transfer_ticket host ctx 5 8 0 (pos 70) minted_state) minted_state

abbrev pub admitted_state : host.State
admitted_state = commit (Calls.verify_ticket host ctx 1 0 resold_state) resold_state

-- Every entry point by its body.
unfoldable pub program : Unit {0}
unfolding invoke run Calls.initialize Calls.mint_ticket Calls.transfer_ticket Calls.verify_ticket
    Calls.get_ticket Calls.tickets_sold Calls.upgrade
program = tt
