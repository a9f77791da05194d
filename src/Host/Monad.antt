-- ===== src/Host/Monad.antt =====
-- How an invocation ends, and the sequencing of host calls.

-- `panic e`: the invocation ends with the contract error `e`, by `panic_with_error!` or by returning
-- `Err(e)`. `trap`: it ends otherwise, by a failed authorisation, an `unwrap` of nothing, an
-- `assert!` or an arithmetic overflow (overflow checks are on). In both the host discards what
-- the invocation wrote, so no state is carried. `diverge`: a loop of the model ran out of fuel.
pub data Outcome (E S A : Type 0) : Type 0 where
  done : A → S → Outcome E S A
  panic : E → Outcome E S A
  trap diverge : Outcome E S A

abbrev pub Action : Type 0 → Type 0 → Type 0 → Type 0
Action E S A = S → Outcome E S A

infixl 5 ◌>>=◌ ◌>>◌
abbrev pub ◌>>=◌ : {E S A B : Type 0} → Action E S A → (A → Action E S B) → Action E S B
◌>>=◌ m f s = elim (m s) [
  | done a s' ↦ f a s'
  | panic e ↦ panic e
  | trap ↦ trap
  | diverge ↦ diverge
]

abbrev pub ◌>>◌ : {E S B : Type 0} → Action E S (Unit {0}) → Action E S B → Action E S B
m >> k = m >>= λ _. k
