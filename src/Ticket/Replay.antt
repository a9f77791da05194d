-- ===== src/Ticket/Replay.antt =====
-- ticket/src/lib.rs against its published events: what an indexer that reads nothing but the events
-- knows of the tickets.
use octraban_contract.Common.{
  ℕ, ◌≡◌, Bool, false, Option, none, some, List, [], ◌∷◌, ◌++◌, ◌==◌, str_eq, if◌then◌else◌, String,
  refl, arith,
}
use octraban_contract.Common.Int.{ℤ}
use octraban_contract.Host.{done, Host, Invocation}
use octraban_contract.Ticket.Types.{
  Address, TicketStatus, valid, used, transferred, Ticket, Val, Value, Published,
}
use octraban_contract.Ticket.Contract.{Call, discard-done, run}
use octraban_contract.Ticket.View.{View, view}
use octraban_contract.Ticket.Spec
use octraban_contract.Ticket.Supply.{IsFresh}
use octraban_contract.Ticket.Refine.{run-keeps}

-- The owner and the status of a ticket.
abbrev pub shown : Option Ticket → Option (Address × TicketStatus)
shown none = none
shown (some t) = some (t.owner, t.status)

-- The topics of an event about a ticket.
unfoldable pub absorb_topics :
    List Val → Option (Address × TicketStatus) → Option (Address × TicketStatus)
absorb_topics (Val.symbol kind ∷ []) seen =
    if str_eq kind "VERIFIED" then elim seen [ none ↦ none | some k ↦ some (k.0, used) ] else seen
absorb_topics (Val.symbol kind ∷ Val.address recipient ∷ []) seen =
    if str_eq kind "MINTED" then some (recipient, valid) else seen
absorb_topics (Val.symbol kind ∷ Val.address from ∷ Val.address to ∷ []) seen =
    if str_eq kind "TRANSFER" then some (to, transferred) else seen
absorb_topics _ seen = seen

-- The payload is the number of the ticket `id`.
abbrev pub is_about : ℕ → Val → Bool
is_about id (Val.u64 n) = n == id
is_about id _ = false

-- What is known of the ticket `id` after one more event.
abbrev pub absorb :
    ℕ → Published → Option (Address × TicketStatus) → Option (Address × TicketStatus)
absorb id e seen = if is_about id e.payload then absorb_topics e.topics seen else seen

-- What is known of the ticket `id` after the events, the first of them first.
unfoldable pub replay :
    ℕ → List Published → Option (Address × TicketStatus) → Option (Address × TicketStatus)
replay id [] seen = seen
replay id (e ∷ es) seen = replay id es (absorb id e seen)

replay-append :
    (id : ℕ) (es : List Published) (e : Published) (seen : Option (Address × TicketStatus))
    → replay id (es ++ (e ∷ [])) seen ≡ absorb id e (replay id es seen)
unfolding replay
replay-append id [] e seen = refl
replay-append id (x ∷ es) e seen = replay-append id es e (absorb id x seen)

abbrev pub IsReplayed : View → Type 0
IsReplayed v = (id : ℕ) → replay id v.emitted none ≡ shown (v.tickets id)

module _ (ctx : Invocation) (v v' : View) (p : IsReplayed v) (j : ℕ) where
  initialize-IsReplayed :
      (a : Address) (name : String) (n : ℕ) (x m : ℤ) {r : Unit {0}}
      → Spec.initialize ctx a name n x m v ≡ done r v'
      → replay j v'.emitted none ≡ shown (v'.tickets j)
  unfolding Spec.initialize
  initialize-IsReplayed a name n x m e = ground (arith, p j)

  mint_ticket-IsReplayed :
      (a recipient : Address) (id : ℕ)
      → Spec.mint_ticket ctx a recipient v ≡ done id v'
      → replay j v'.emitted none ≡ shown (v'.tickets j)
  unfolding Spec.mint_ticket absorb_topics
  mint_ticket-IsReplayed a recipient id e =
      let told : Published = record {
        topics = Val.symbol "MINTED" ∷ Val.address recipient ∷ [];
        payload = Val.u64 id;
      } in
      ground (arith, p j, replay-append j v.emitted told none)

  transfer_ticket-IsReplayed :
      (from to : Address) (id : ℕ) (price : ℤ) {r : Unit {0}}
      → Spec.transfer_ticket ctx from to id price v ≡ done r v'
      → replay j v'.emitted none ≡ shown (v'.tickets j)
  unfolding Spec.transfer_ticket absorb_topics
  transfer_ticket-IsReplayed from to id price e =
      let told : Published = record {
        topics = Val.symbol "TRANSFER" ∷ Val.address from ∷ Val.address to ∷ [];
        payload = Val.u64 id;
      } in
      ground (arith, p j, replay-append j v.emitted told none)

  verify_ticket-IsReplayed :
      (a : Address) (id : ℕ) (b : Bool)
      → Spec.verify_ticket ctx a id v ≡ done b v'
      → replay j v'.emitted none ≡ shown (v'.tickets j)
  unfolding Spec.verify_ticket absorb_topics
  verify_ticket-IsReplayed a id b e =
      let told : Published = record { topics = Val.symbol "VERIFIED" ∷ []; payload = Val.u64 id } in
      ground (arith, p j, replay-append j v.emitted told none)

  upgrade-IsReplayed :
      (a : Address) (w : ℕ) {r : Unit {0}}
      → Spec.upgrade ctx a w v ≡ done r v'
      → replay j v'.emitted none ≡ shown (v'.tickets j)
  unfolding Spec.upgrade
  upgrade-IsReplayed a w e =
      let told : Published = record {
        topics = Val.symbol "upgrade" ∷ [];
        payload = Val.bytes32 w;
      } in
      ground (arith, p j, replay-append j v.emitted told none)

-- A read publishes nothing and leaves the tickets as they are.
pub get_ticket_unchanged :
    (id : ℕ) (v v' : View) {t : Ticket} → Spec.get_ticket id v ≡ done t v' → v' ≡ v
unfolding Spec.get_ticket
get_ticket_unchanged id v v' e = ground arith

pub tickets_sold_unchanged : (v v' : View) {n : ℕ} → Spec.tickets_sold v ≡ done n v' → v' ≡ v
unfolding Spec.tickets_sold
tickets_sold_unchanged v v' e = ground arith

invoke-IsReplayed :
    (ctx : Invocation) (c : Call) (v v' : View) {r : Unit {0}}
    → Spec.invoke ctx c v ≡ done r v'
    → IsReplayed v
    → IsReplayed v'
unfolding Spec.invoke
invoke-IsReplayed ctx (Call.initialize a name n x m) v v' e p =
    λ j. initialize-IsReplayed ctx v v' p j a name n x m e
invoke-IsReplayed ctx (Call.mint_ticket a b) v v' e p =
    let (id, e') = discard-done (Spec.mint_ticket ctx a b) v e in
    λ j. mint_ticket-IsReplayed ctx v v' p j a b id e'
invoke-IsReplayed ctx (Call.transfer_ticket a b id x) v v' e p =
    λ j. transfer_ticket-IsReplayed ctx v v' p j a b id x e
invoke-IsReplayed ctx (Call.verify_ticket a id) v v' e p =
    let (b, e') = discard-done (Spec.verify_ticket ctx a id) v e in
    λ j. verify_ticket-IsReplayed ctx v v' p j a id b e'
invoke-IsReplayed ctx (Call.get_ticket id) v v' e p =
    let (t, e') = discard-done (Spec.get_ticket id) v e in rw (get_ticket_unchanged id v v' e') p
invoke-IsReplayed ctx Call.tickets_sold v v' e p =
    let (n, e') = discard-done Spec.tickets_sold v e in rw (tickets_sold_unchanged v v' e') p
invoke-IsReplayed ctx (Call.upgrade a w) v v' e p = λ j. upgrade-IsReplayed ctx v v' p j a w e

-- After any sequence of invocations on a new contract that has published nothing, whoever made them
-- and however they ended: whether a ticket was issued, its owner and its status are what a reader of
-- the published events alone finds, who takes MINTED for a valid ticket of the recipient, TRANSFER
-- for a transferred one of the new owner and VERIFIED for a used one.
pub replayed_tickets :
    (h : Host Value Published) (cs : List (Invocation × Call)) (s : h.State) (id : ℕ)
    → IsFresh (view h s)
    → h.events s ≡ []
    → replay id (h.events (run h cs s)) none ≡ shown ((view h (run h cs s)).tickets id)
unfolding replay
replayed_tickets h cs s id fresh silent =
    run-keeps h IsReplayed (λ ctx c v v' e p. invoke-IsReplayed ctx c v v' e p) cs s
      (λ j. ground (arith, silent, fresh.tickets j)) id
