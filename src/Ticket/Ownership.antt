-- ===== src/Ticket/Ownership.antt =====
-- ticket/src/lib.rs: how a ticket changes hands.
use octraban_contract.Common.{ℕ, ◌≡◌, ◌≢◌, true, false, some, arith, inl, inr}
use octraban_contract.Common.Int.{ℤ, pos, ltb_ℤ}
use octraban_contract.Host.{done, Host, Invocation}
use octraban_contract.Ticket.Types.{valid, used, transferred, Ticket, Value, Published}
use octraban_contract.Ticket.Contract.{Call, invoke}
use octraban_contract.Ticket.View.{View, view}
use octraban_contract.Ticket.Refine.{invoke-done}
use octraban_contract.Ticket.Changes.{
  Change, same_tickets, started, minted, sold, admitted, invoke-Change,
}
use octraban_contract.Ticket.Supply.{IsSupplied}
use octraban_contract.Ticket.Lifecycle.{Rewritten-at}

Change-owner :
    (ctx : Invocation) (c : Call) (v v' : View) (id : ℕ) (t t' : Ticket)
    → IsSupplied v
    → Change ctx c v v'
    → v.tickets id ≡ some t
    → v'.tickets id ≡ some t'
    → t'.owner ≢ t.owner
    → (ctx.authorised t.owner ≡ true)
      × (t.status ≡ valid)
      × (t'.status ≡ transferred)
      × ((price : ℤ) × (c ≡ Call.transfer_ticket t.owner t'.owner id price)
          × (ltb_ℤ price (pos 0) ≡ false)
          × (ltb_ℤ t.max_resale_price price ≡ false))
Change-owner ctx c v v' id t t' p (same_tickets same) held held' moved =
    absurd (moved (ground (arith, same.tickets)))
Change-owner ctx c v v' id t t' p (started st) held held' moved =
    absurd (moved (ground (arith, st.tickets)))
Change-owner ctx c v v' id t t' p (minted b j m) held held' moved =
    absurd (moved (ground (arith, m.tickets, m.minted, p.numbered id t)))
Change-owner ctx c v v' id t t' p (sold x j to price made w signed fresh floor cap) held held'
      moved =
    elim (Rewritten-at id j x (record x { owner = to; status = transferred }) t v v' w held) [
      | inl (here, same, now) ↦
          (ground arith, ground arith, ground arith, (price, ground arith, floor, ground arith))
      | inr now ↦ absurd (moved (ground arith))
    ]
Change-owner ctx c v v' id t t' p (admitted x j w unused) held held' moved =
    elim (Rewritten-at id j x (record x { status = used }) t v v' w held) [
      | inl (here, same, now) ↦ absurd (moved (ground arith))
      | inr now ↦ absurd (moved (ground arith))
    ]

-- While the tickets are well numbered: if a successful call changes the owner of a stored ticket, it
-- is the call of `transfer_ticket` from the old owner to the new one, the old owner has authorised
-- it, the ticket was valid and is transferred, and the price is neither negative nor above the
-- ceiling.
pub owner_changes :
    (h : Host Value Published) (ctx : Invocation) (c : Call) (s s' : h.State) {r : Unit {0}}
    (id : ℕ) (t t' : Ticket)
    → IsSupplied (view h s)
    → invoke h ctx c s ≡ done r s'
    → (view h s).tickets id ≡ some t
    → (view h s').tickets id ≡ some t'
    → t'.owner ≢ t.owner
    → (ctx.authorised t.owner ≡ true)
      × (t.status ≡ valid)
      × (t'.status ≡ transferred)
      × ((price : ℤ) × (c ≡ Call.transfer_ticket t.owner t'.owner id price)
          × (ltb_ℤ price (pos 0) ≡ false)
          × (ltb_ℤ t.max_resale_price price ≡ false))
owner_changes h ctx c s s' id t t' supplied e held held' moved =
    Change-owner ctx c (view h s) (view h s') id t t' supplied
      (invoke-Change ctx c (view h s) (view h s') (invoke-done h ctx c s s' e)) held held' moved
