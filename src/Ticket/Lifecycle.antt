-- ===== src/Ticket/Lifecycle.antt =====
-- The life of one ticket: valid, then perhaps transferred once, then used once.
use native.Mathlib.Decide.{ℕ_discrete}
use octraban_contract.Common.{ℕ, ◌≤◌, ◌<◌, ◌≡◌, ◌≢◌, ◌⊎◌, true, some, List, refl, arith, inl, inr}
use octraban_contract.Host.{done, Host, Invocation}
use octraban_contract.Host.Observe.{observe-done}
use octraban_contract.Ticket.Types.{
  Address, TicketStatus, valid, used, transferred, Ticket, Value, Published,
}
use octraban_contract.Ticket.Calls
use octraban_contract.Ticket.Contract.{Call, run}
use octraban_contract.Ticket.View.{View, view}
use octraban_contract.Ticket.Refine.{run-keeps, verify_ticket-refines}
use octraban_contract.Ticket.Changes.{
  Rewritten, Change, same_tickets, started, minted, sold, admitted, invoke-Change,
  verify_ticket-Rewritten,
}
use octraban_contract.Ticket.Supply.{IsSupplied, Change-IsSupplied}

-- How far a ticket has come.
abbrev pub stage : TicketStatus → ℕ
stage valid = 0
stage transferred = 1
stage used = 2

-- A ticket `t` and what has become of it.
pub record IsLater (t t' : Ticket) : Type 0 where
  pub id : t'.id ≡ t.id
  pub event_name : t'.event_name ≡ t.event_name
  pub original_price : t'.original_price ≡ t.original_price
  pub max_resale_price : t'.max_resale_price ≡ t.max_resale_price
  pub advanced : stage t.status ≤ stage t'.status
  pub kept : stage t.status ≡ stage t'.status → t'.owner ≡ t.owner
  pub settled : t.status ≢ valid → t'.owner ≡ t.owner

pub IsLater-refl : (t : Ticket) → IsLater t t
IsLater-refl t = record {
  id = refl;
  event_name = refl;
  original_price = refl;
  max_resale_price = refl;
  advanced = omega arith;
  kept = λ _. refl;
  settled = λ _. refl;
}

stage-valid : (x y : TicketStatus) → stage x ≤ stage y → y ≡ valid → x ≡ valid
stage-valid valid y le e = refl
stage-valid transferred y le e = ground arith
stage-valid used y le e = ground arith

IsLater-sold :
    (t t' : Ticket) (to : Address)
    → t'.status ≡ valid
    → IsLater t t'
    → IsLater t (record t' { owner = to; status = transferred })
IsLater-sold t t' to fresh l =
    let before = stage-valid t.status t'.status l.advanced fresh in
    record {
      id = l.id;
      event_name = l.event_name;
      original_price = l.original_price;
      max_resale_price = l.max_resale_price;
      advanced = ground (arith, before);
      kept = λ e. ground (arith, before);
      settled = λ ne. absurd (ne before);
    }

stage-used : (x : TicketStatus) → x ≢ used → stage x < 2
stage-used valid ne = omega arith
stage-used transferred ne = omega arith
stage-used used ne = absurd (ne refl)

IsLater-admitted :
    (t t' : Ticket) → t'.status ≢ used → IsLater t t' → IsLater t (record t' { status = used })
IsLater-admitted t t' unused l = record {
  id = l.id;
  event_name = l.event_name;
  original_price = l.original_price;
  max_resale_price = l.max_resale_price;
  advanced = omega (arith, l.advanced, stage-used t'.status unused);
  kept = λ e. absurd (omega (arith, e, l.advanced, stage-used t'.status unused));
  settled = l.settled;
}

-- The ticket numbered `id` is what has become of `t`, in a storage whose tickets are well numbered.
pub record IsTraced (id : ℕ) (t : Ticket) (v : View) : Type 0 where
  pub supplied : IsSupplied v
  pub now : Ticket
  pub held : v.tickets id ≡ some now
  pub later : IsLater t now

pub Rewritten-at :
    (id j : ℕ) (t t' now : Ticket) (v v' : View)
    → Rewritten j t t' v v'
    → v.tickets id ≡ some now
    → ((j ≡ id) × (t ≡ now) × (v'.tickets id ≡ some t')) ⊎ (v'.tickets id ≡ some now)
Rewritten-at id j t t' now v v' w held = elim (ℕ_discrete j id) [
  | yes same ↦ inl (same, ground (arith, w.was), ground (arith, w.tickets))
  | no other ↦ inr (ground (arith, w.tickets))
]

IsTraced-Rewritten :
    (id j : ℕ) (t x x' : Ticket) (v v' : View)
    → Rewritten j x x' v v'
    → (IsLater t x → IsLater t x')
    → IsSupplied v'
    → IsTraced id t v
    → IsTraced id t v'
IsTraced-Rewritten id j t x x' v v' w step supplied p =
    elim (Rewritten-at id j x x' p.now v v' w p.held) [
      | inl (here, same, held) ↦ record {
        supplied = supplied;
        now = x';
        held = held;
        later = step (rw same p.later);
      }
      | inr held ↦ record { supplied = supplied; now = p.now; held = held; later = p.later }
    ]

-- Every successful call keeps the trace of a ticket.
Change-IsTraced :
    (id : ℕ) (t : Ticket) (ctx : Invocation) (c : Call) (v v' : View)
    → Change ctx c v v'
    → IsTraced id t v
    → IsTraced id t v'
Change-IsTraced id t ctx c v v' (same_tickets same) p = record {
  supplied = Change-IsSupplied ctx c v v' (same_tickets same) p.supplied;
  now = p.now;
  held = ground (arith, same.tickets, p.held);
  later = p.later;
}
Change-IsTraced id t ctx c v v' (started st) p = record {
  supplied = Change-IsSupplied ctx c v v' (started st) p.supplied;
  now = p.now;
  held = ground (arith, st.tickets, p.held);
  later = p.later;
}
Change-IsTraced id t ctx c v v' (minted b j m) p = record {
  supplied = Change-IsSupplied ctx c v v' (minted b j m) p.supplied;
  now = p.now;
  held = ground (arith, m.tickets, m.minted, p.held, p.supplied.numbered id p.now);
  later = p.later;
}
Change-IsTraced id t ctx c v v' (sold x j to price made w signed fresh floor cap) p =
    IsTraced-Rewritten id j t x (record x { owner = to; status = transferred }) v v' w
      (IsLater-sold t x to fresh)
      (Change-IsSupplied ctx c v v' (sold x j to price made w signed fresh floor cap) p.supplied) p
Change-IsTraced id t ctx c v v' (admitted x j w unused) p =
    IsTraced-Rewritten id j t x (record x { status = used }) v v' w (IsLater-admitted t x unused)
      (Change-IsSupplied ctx c v v' (admitted x j w unused) p.supplied) p

-- While the tickets are well numbered, a ticket that is stored stays stored under its number, through
-- any sequence of invocations:
-- its number, event and prices stay as they were, its status only advances from valid over
-- transferred to used, its owner is the same while the status is, and stays for good once the status
-- is no longer valid.
pub run-IsTraced :
    (h : Host Value Published) (cs : List (Invocation × Call)) (s : h.State) (id : ℕ) (t : Ticket)
    → IsSupplied (view h s)
    → (view h s).tickets id ≡ some t
    → (now : Ticket) × ((view h (run h cs s)).tickets id ≡ some now) × IsLater t now
run-IsTraced h cs s id t supplied held =
    let trace =
      run-keeps h (IsTraced id t)
        (λ ctx c v v' e p. Change-IsTraced id t ctx c v v' (invoke-Change ctx c v v' e) p) cs s
        record { supplied = supplied; now = t; held = held; later = IsLater-refl t } in
    (trace.now, trace.held, trace.later)

stage-used_only : (x : TicketStatus) → 2 ≤ stage x → x ≡ used
stage-used_only valid le = absurd (omega (arith, le))
stage-used_only transferred le = absurd (omega (arith, le))
stage-used_only used le = refl

Rewritten-held :
    (id : ℕ) (t t' : Ticket) (v v' : View) → Rewritten id t t' v v' → v'.tickets id ≡ some t'
Rewritten-held id t t' v v' w = ground (arith, w.tickets)

spent_stays :
    (id : ℕ) (t now t' : Ticket) (v : View)
    → t.status ≡ used
    → IsLater t now
    → v.tickets id ≡ some now
    → v.tickets id ≡ some t'
    → t'.status ≡ used
spent_stays id t now t' v spent later held held' =
    let over : 2 ≤ stage now.status = ground (arith, later.advanced) in
    ground (arith, stage-used_only now.status over)

-- While the tickets are well numbered, a ticket admits once: after a verification that admitted, no
-- verification of it admits, whatever is called in between and whoever verifies.
pub admitted_once :
    (h : Host Value Published) (ctx ctx' : Invocation) (a b : Address) (id : ℕ)
    (cs : List (Invocation × Call)) (s s' s'' : h.State)
    → IsSupplied (view h s)
    → Calls.verify_ticket h ctx a id s ≡ done true s'
    → Calls.verify_ticket h ctx' b id (run h cs s') ≢ done true s''
admitted_once h ctx ctx' a b id cs s s' s'' supplied first second =
    let (t, w, unused) = verify_ticket-Rewritten ctx a id (view h s) (view h s') (
      observe-done (view h) (Calls.verify_ticket h ctx a id s) _
        (verify_ticket-refines h ctx a id s) first) in
    let (t', w', unused') = verify_ticket-Rewritten ctx' b id (view h (run h cs s')) (view h s'') (
      observe-done (view h) (Calls.verify_ticket h ctx' b id (run h cs s')) _
        (verify_ticket-refines h ctx' b id (run h cs s')) second) in
    let spent = record t { status = used } in
    let kept =
      Change-IsSupplied ctx (Call.verify_ticket a id) (view h s) (view h s')
        (admitted t id w unused) supplied in
    let (now, held, later) =
      run-IsTraced h cs s' id spent kept (Rewritten-held id t spent (view h s) (view h s') w) in
    unused' (spent_stays id spent now t' (view h (run h cs s')) refl later held w'.was)
