-- ===== src/Ticket/Contract.antt =====
-- ticket/src/lib.rs: the contract as a whole, an invocation of any of its entry points.
use octraban_contract.Common.{ℕ, ◌≡◌, List, [], ◌∷◌, String, arith, ⊤}
use octraban_contract.Common.Int.{ℤ}
use octraban_contract.Host.{
  Outcome, done, panic, trap, diverge, Action, ◌>>=◌, Host, Invocation, pure,
}
use octraban_contract.Ticket.Types.{Address, Error, Value, Published}
use octraban_contract.Ticket.Calls

-- The entry points of `impl TicketContract`, with their arguments.
pub data Call : Type 0 where
  initialize : Address → String → ℕ → ℤ → ℤ → Call
  mint_ticket : Address → Address → Call
  transfer_ticket : Address → Address → ℕ → ℤ → Call
  verify_ticket : Address → ℕ → Call
  get_ticket : ℕ → Call
  tickets_sold : Call
  upgrade : Address → ℕ → Call

-- An action whose result is dropped.
abbrev pub discard : {E S A : Type 0} → Action E S A → Action E S ⊤
discard m = do _ ← m; pure tt

unfoldable pub invoke : (h : Host Value Published) → Invocation → Call → Action Error h.State ⊤
invoke h ctx (Call.initialize a name n p m) = Calls.initialize h ctx a name n p m
invoke h ctx (Call.mint_ticket a b) = discard (Calls.mint_ticket h ctx a b)
invoke h ctx (Call.transfer_ticket a b id p) = Calls.transfer_ticket h ctx a b id p
invoke h ctx (Call.verify_ticket a id) = discard (Calls.verify_ticket h ctx a id)
invoke h ctx (Call.get_ticket id) = discard (Calls.get_ticket h id)
invoke h ctx Call.tickets_sold = discard (Calls.tickets_sold h)
invoke h ctx (Call.upgrade a w) = Calls.upgrade h ctx a w

-- What the host keeps of an invocation: its writes if it ends well, else nothing of it.
abbrev pub commit : {E S A : Type 0} → Outcome E S A → S → S
commit (done _ s') s = s'
commit (panic _) s = s
commit trap s = s
commit diverge s = s

-- A sequence of invocations of this code, each of them committed. What other code does after an
-- upgrade is not part of it.
unfoldable pub run : (h : Host Value Published) → List (Invocation × Call) → h.State → h.State
run h [] s = s
run h ((ctx, c) ∷ cs) s = run h cs (commit (invoke h ctx c s) s)

pub discard-done :
    {E S A : Type 0} (m : Action E S A) (s : S) {r : Unit {0}} {s' : S}
    → discard m s ≡ done r s'
    → (a : A) × (m s ≡ done a s')
discard-done m s e = ground arith
