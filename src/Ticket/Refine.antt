-- ===== src/Ticket/Refine.antt =====
-- Every entry point of the ticket contract does what its specification promises, over every host.
use octraban_contract.Common.{ℕ, ◌≡◌, List, [], ◌∷◌, String, arith, refl}
use octraban_contract.Common.Int.{ℤ}
use octraban_contract.Host.{
  Outcome, done, panic, trap, diverge, Action, Host, Invocation, instance_slot,
}
use octraban_contract.Host.Observe.{observe, observe-done}
use octraban_contract.Ticket.Types.{Address, Error, admin, Value, Published}
use octraban_contract.Ticket.Calls
use octraban_contract.Ticket.Contract.{Call, discard, invoke, commit, run}
use octraban_contract.Ticket.View.{View, view}
use octraban_contract.Ticket.View.Laws.{view_laws}
use octraban_contract.Ticket.Spec

discard-observe :
    {S T A : Type 0} (f : S → T) (m : Action Error S A) (q : Action Error T A) (s : S)
    → observe f (m s) ≡ q (f s)
    → observe f (discard m s) ≡ discard q (f s)
discard-observe f m q s e = ground arith

module _ (h : Host Value Published) where
  pub get_ticket-refines :
      (id : ℕ) (s : h.State)
      → observe (view h) (Calls.get_ticket h id s) ≡ Spec.get_ticket id (view h s)
  unfolding Calls.get_ticket Spec.get_ticket
  get_ticket-refines id s = ground arith

  pub tickets_sold-refines :
      (s : h.State) → observe (view h) (Calls.tickets_sold h s) ≡ Spec.tickets_sold (view h s)
  unfolding Calls.tickets_sold Spec.tickets_sold
  tickets_sold-refines s = ground arith

module _ (h : Host Value Published) (ctx : Invocation) where
  pub initialize-refines :
      (a : Address) (name : String) (n : ℕ) (p m : ℤ) (s : h.State)
      → observe (view h) (Calls.initialize h ctx a name n p m s)
        ≡ Spec.initialize ctx a name n p m (view h s)
  unfolding Calls.initialize Spec.initialize
  initialize-refines a name n p m s = grind (arith, h.has-get (instance_slot admin) s, view_laws)

  pub mint_ticket-refines :
      (a recipient : Address) (s : h.State)
      → observe (view h) (Calls.mint_ticket h ctx a recipient s)
        ≡ Spec.mint_ticket ctx a recipient (view h s)
  unfolding Calls.mint_ticket Spec.mint_ticket
  mint_ticket-refines a recipient s = grind (arith, view_laws)

  pub transfer_ticket-refines :
      (from to : Address) (id : ℕ) (price : ℤ) (s : h.State)
      → observe (view h) (Calls.transfer_ticket h ctx from to id price s)
        ≡ Spec.transfer_ticket ctx from to id price (view h s)
  unfolding Calls.transfer_ticket Spec.transfer_ticket
  transfer_ticket-refines from to id price s = grind (arith, view_laws)

  pub verify_ticket-refines :
      (a : Address) (id : ℕ) (s : h.State)
      → observe (view h) (Calls.verify_ticket h ctx a id s) ≡ Spec.verify_ticket ctx a id (view h s)
  unfolding Calls.verify_ticket Spec.verify_ticket
  verify_ticket-refines a id s = grind (arith, view_laws)

  pub upgrade-refines :
      (a : Address) (w : ℕ) (s : h.State)
      → observe (view h) (Calls.upgrade h ctx a w s) ≡ Spec.upgrade ctx a w (view h s)
  unfolding Calls.upgrade Spec.upgrade
  upgrade-refines a w s = grind (arith, view_laws)

  -- An invocation in a sequence, whose result nobody reads, ends as its specification says: in the
  -- same way, with the same error, and with the change of the visible storage that is specified.
  pub invoke-refines_ticket :
      (c : Call) (s : h.State) → observe (view h) (invoke h ctx c s) ≡ Spec.invoke ctx c (view h s)
  unfolding invoke Spec.invoke
  invoke-refines_ticket (Call.initialize a name n p m) s = initialize-refines a name n p m s
  invoke-refines_ticket (Call.mint_ticket a b) s =
      discard-observe (view h) (Calls.mint_ticket h ctx a b) (Spec.mint_ticket ctx a b) s
        (mint_ticket-refines a b s)
  invoke-refines_ticket (Call.transfer_ticket a b id p) s = transfer_ticket-refines a b id p s
  invoke-refines_ticket (Call.verify_ticket a id) s =
      discard-observe (view h) (Calls.verify_ticket h ctx a id) (Spec.verify_ticket ctx a id) s
        (verify_ticket-refines a id s)
  invoke-refines_ticket (Call.get_ticket id) s =
      discard-observe (view h) (Calls.get_ticket h id) (Spec.get_ticket id) s
        (get_ticket-refines h id s)
  invoke-refines_ticket Call.tickets_sold s =
      discard-observe (view h) (Calls.tickets_sold h) Spec.tickets_sold s (tickets_sold-refines h s)
  invoke-refines_ticket (Call.upgrade a w) s = upgrade-refines a w s

  -- What a successful invocation does to the visible storage, by its specification.
  pub invoke-done :
      (c : Call) (s s' : h.State) {r : Unit {0}}
      → invoke h ctx c s ≡ done r s'
      → Spec.invoke ctx c (view h s) ≡ done r (view h s')
  invoke-done c s s' e =
      observe-done (view h) (invoke h ctx c s) (Spec.invoke ctx c (view h s))
        (invoke-refines_ticket c s) e

module _ (h : Host Value Published) (P : View → Type 0)
    (keeps : (ctx : Invocation) (c : Call) (v v' : View)
      → Spec.invoke ctx c v ≡ done tt v'
      → P v
      → P v') where
  step-keeps :
      (ctx : Invocation) (c : Call) (s : h.State) (o : Outcome Error h.State (Unit {0}))
      → invoke h ctx c s ≡ o
      → P (view h s)
      → P (view h (commit o s))
  step-keeps ctx c s (done tt s') e p =
      keeps ctx c (view h s) (view h s') (invoke-done h ctx c s s' e) p
  step-keeps ctx c s (panic x) e p = p
  step-keeps ctx c s trap e p = p
  step-keeps ctx c s diverge e p = p

  -- What every successful call keeps, every sequence of calls keeps.
  pub run-keeps :
      (cs : List (Invocation × Call)) (s : h.State) → P (view h s) → P (view h (run h cs s))
  unfolding run
  run-keeps [] s p = p
  run-keeps ((ctx, c) ∷ cs) s p = run-keeps cs _ (step-keeps ctx c s (invoke h ctx c s) refl p)
