-- ===== src/Ticket/Changes.antt =====
-- What each entry point of the ticket contract changes, by its specification.
use octraban_contract.Common.{
  ℕ, ◌+◌, ◌<◌, ◌≡◌, ◌≢◌, Bool, true, false, none, some, String, ap, sym, unwrap_or, refl, arith,
  Option-cases, inl, inr,
}
use octraban_contract.Common.Int.{ℤ, pos, ltb_ℤ}
use octraban_contract.Host.{done, Invocation}
use octraban_contract.Ticket.Types.{Address, TicketStatus, valid, used, transferred, Ticket}
use octraban_contract.Ticket.Contract.{discard-done, Call}
use octraban_contract.Ticket.View.{View, update}
use octraban_contract.Ticket.Spec

is_valid-valid : (x : TicketStatus) → Spec.is_valid x ≡ true → x ≡ valid
is_valid-valid valid e = refl
is_valid-valid used e = cc
is_valid-valid transferred e = cc

-- What a successful mint does: the ticket is new, and its number was the counter's.
pub record Minted (recipient : Address) (id : ℕ) (v v' : View) : Type 0 where
  pub minted : v.minted ≡ some id
  pub room : id < unwrap_or v.supply 0
  pub supply : v'.supply ≡ v.supply
  pub organizer : v'.organizer ≡ v.organizer
  pub next : v'.minted ≡ some (id + 1)
  pub ticket : Ticket
  pub number : ticket.id ≡ id
  pub owner : ticket.owner ≡ recipient
  pub fresh : ticket.status ≡ valid
  pub tickets : v'.tickets ≡ update v.tickets id (some ticket)

pub mint_ticket-Minted :
    (ctx : Invocation) (a recipient : Address) (id : ℕ) (v v' : View)
    → Spec.mint_ticket ctx a recipient v ≡ done id v'
    → Minted recipient id v v'
unfolding Spec.mint_ticket
mint_ticket-Minted ctx a recipient id v v' e = elim (Option-cases v.cost) [
  | inl no_cost ↦ ground arith
  | inr (p, cost) ↦ elim (Option-cases v.ceiling) [
    | inl no_ceiling ↦ ground arith
    | inr (m, ceiling) ↦ elim (Option-cases v.event) [
      | inl no_event ↦ ground arith
      | inr (name, event) ↦ record {
        minted = ground arith;
        room = ground arith;
        supply = ground arith;
        organizer = ground arith;
        next = ground arith;
        ticket = Spec.issued ctx id recipient name p m;
        number = refl;
        owner = refl;
        fresh = refl;
        tickets = ground arith;
      }
    ]
  ]
]

-- A call that writes at most the ticket `id`, which must be there and keeps its number.
pub record Rewritten (id : ℕ) (t t' : Ticket) (v v' : View) : Type 0 where
  pub was : v.tickets id ≡ some t
  pub number : t'.id ≡ t.id
  pub tickets : v'.tickets ≡ update v.tickets id (some t')
  pub minted : v'.minted ≡ v.minted
  pub supply : v'.supply ≡ v.supply
  pub organizer : v'.organizer ≡ v.organizer

pub transfer_ticket-Rewritten :
    (ctx : Invocation) (from to : Address) (id : ℕ) (price : ℤ) (v v' : View) {r : Unit {0}}
    → Spec.transfer_ticket ctx from to id price v ≡ done r v'
    → (t : Ticket) × (Rewritten id t (record t { owner = to; status = transferred }) v v')
      × (ctx.authorised from ≡ true)
      × (t.owner ≡ from)
      × (t.status ≡ valid)
      × (ltb_ℤ price (pos 0) ≡ false)
      × (ltb_ℤ t.max_resale_price price ≡ false)
unfolding Spec.transfer_ticket
transfer_ticket-Rewritten ctx from to id price v v' e = elim (Option-cases (v.tickets id)) [
  | inl absent ↦ ground arith
  | inr (t, held) ↦ (
    t,
    record {
      was = held;
      number = refl;
      tickets = ground arith;
      minted = ground arith;
      supply = ground arith;
      organizer = ground arith;
    },
    ground arith,
    ground arith,
    is_valid-valid t.status (ground arith),
    ground arith,
    ground arith,
  )
]

-- A verification that admits uses up the ticket.
pub verify_ticket-Rewritten :
    (ctx : Invocation) (a : Address) (id : ℕ) (v v' : View)
    → Spec.verify_ticket ctx a id v ≡ done true v'
    → (t : Ticket) × (Rewritten id t (record t { status = used }) v v') × (t.status ≢ used)
unfolding Spec.verify_ticket
verify_ticket-Rewritten ctx a id v v' e = elim (Option-cases (v.tickets id)) [
  | inl absent ↦ ground arith
  | inr (t, held) ↦ (
    t,
    record {
      was = held;
      number = refl;
      tickets = ground arith;
      minted = ground arith;
      supply = ground arith;
      organizer = ground arith;
    },
    λ spent. ground arith,
  )
]

-- A verification that admits nobody changes nothing.
pub verify_ticket-refused :
    (ctx : Invocation) (a : Address) (id : ℕ) (v v' : View)
    → Spec.verify_ticket ctx a id v ≡ done false v'
    → v' ≡ v
unfolding Spec.verify_ticket
verify_ticket-refused ctx a id v v' e = ground arith

-- The parts of the storage that the numbering is about.
pub record SameTickets (v v' : View) : Type 0 where
  pub tickets : v'.tickets ≡ v.tickets
  pub minted : v'.minted ≡ v.minted
  pub supply : v'.supply ≡ v.supply
  pub organizer : v'.organizer ≡ v.organizer

-- A call that leaves the tickets and their number as they were.
pub is_quiet : Call → Bool
is_quiet (Call.initialize _ _ _ _ _) = false
is_quiet (Call.mint_ticket _ _) = false
is_quiet (Call.transfer_ticket _ _ _ _) = false
is_quiet (Call.verify_ticket _ _) = false
is_quiet (Call.get_ticket _) = true
is_quiet Call.tickets_sold = true
is_quiet (Call.upgrade _ _) = true

pub invoke-SameTickets :
    (ctx : Invocation) (c : Call) (v v' : View) {r : Unit {0}}
    → is_quiet c ≡ true
    → Spec.invoke ctx c v ≡ done r v'
    → SameTickets v v'
unfolding Spec.invoke is_quiet
invoke-SameTickets ctx (Call.initialize _ _ _ _ _) v v' t e = cc
invoke-SameTickets ctx (Call.mint_ticket _ _) v v' t e = cc
invoke-SameTickets ctx (Call.transfer_ticket _ _ _ _) v v' t e = cc
invoke-SameTickets ctx (Call.verify_ticket _ _) v v' t e = cc
invoke-SameTickets ctx _ v v' t e = record {
  tickets = ground arith;
  minted = ground arith;
  supply = ground arith;
  organizer = ground arith;
}

-- A successful `initialize` opens the sale, which was not open.
pub record Started (v v' : View) : Type 0 where
  pub unopened : v.organizer ≡ none
  pub organizer : v'.organizer ≢ none
  pub minted : v'.minted ≡ some 0
  pub tickets : v'.tickets ≡ v.tickets

pub initialize-Started :
    (ctx : Invocation) (a : Address) (name : String) (n : ℕ) (p m : ℤ) (v v' : View) {r : Unit {0}}
    → Spec.initialize ctx a name n p m v ≡ done r v'
    → Started v v'
unfolding Spec.initialize
initialize-Started ctx a name n p m v v' e = record {
  unopened = ground arith;
  organizer = ground arith;
  minted = ground arith;
  tickets = ground arith;
}

-- The five things that a successful call can be, as far as the tickets are concerned.
pub data Change (ctx : Invocation) (c : Call) (v v' : View) : Type 0 where
  same_tickets : SameTickets v v' → Change ctx c v v'
  started : Started v v' → Change ctx c v v'
  minted : (recipient : Address) (id : ℕ) → Minted recipient id v v' → Change ctx c v v'
  sold :
      (t : Ticket) (id : ℕ) (to : Address) (price : ℤ)
      → c ≡ Call.transfer_ticket t.owner to id price
      → Rewritten id t (record t { owner = to; status = transferred }) v v'
      → ctx.authorised t.owner ≡ true
      → t.status ≡ valid
      → ltb_ℤ price (pos 0) ≡ false
      → ltb_ℤ t.max_resale_price price ≡ false
      → Change ctx c v v'
  admitted :
      (t : Ticket) (id : ℕ)
      → Rewritten id t (record t { status = used }) v v'
      → t.status ≢ used
      → Change ctx c v v'

verify_ticket-Change :
    (ctx : Invocation) (a : Address) (id : ℕ) (b : Bool) (v v' : View)
    → Spec.verify_ticket ctx a id v ≡ done b v'
    → Change ctx (Call.verify_ticket a id) v v'
verify_ticket-Change ctx a id true v v' e =
    let (t, w, unused) = verify_ticket-Rewritten ctx a id v v' e in admitted t id w unused
verify_ticket-Change ctx a id false v v' e =
    let unchanged = verify_ticket-refused ctx a id v v' e in
    same_tickets record {
      tickets = ap (λ w. w.tickets) unchanged;
      minted = ap (λ w. w.minted) unchanged;
      supply = ap (λ w. w.supply) unchanged;
      organizer = ap (λ w. w.organizer) unchanged;
    }

pub invoke-Change :
    (ctx : Invocation) (c : Call) (v v' : View) {r : Unit {0}}
    → Spec.invoke ctx c v ≡ done r v'
    → Change ctx c v v'
unfolding Spec.invoke is_quiet
invoke-Change ctx (Call.initialize a name n p m) v v' e =
    started (initialize-Started ctx a name n p m v v' e)
invoke-Change ctx (Call.mint_ticket a b) v v' e =
    let (id, e') = discard-done (Spec.mint_ticket ctx a b) v e in
    minted b id (mint_ticket-Minted ctx a b id v v' e')
invoke-Change ctx (Call.transfer_ticket a b id p) v v' e =
    let (t, w, signed, own, fresh, floor, cap) = transfer_ticket-Rewritten ctx a b id p v v' e in
    sold t id b p (ap (λ x. Call.transfer_ticket x b id p) (sym own)) w (rw own signed) fresh floor
      cap
invoke-Change ctx (Call.verify_ticket a id) v v' e =
    let (b, e') = discard-done (Spec.verify_ticket ctx a id) v e in
    verify_ticket-Change ctx a id b v v' e'
invoke-Change ctx c v v' e = same_tickets (invoke-SameTickets ctx c v v' refl e)
