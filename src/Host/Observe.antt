-- ===== src/Host/Observe.antt =====
-- Outcomes seen through an observation of the state.
use octraban_contract.Common.{◌≡◌}
use octraban_contract.Host.Monad.{Outcome, done, panic, trap, diverge}

module _ {E S T A : Type 0} (view : S → T) where
  abbrev pub observe : Outcome E S A → Outcome E T A
  observe (done a s) = done a (view s)
  observe (panic e) = panic e
  observe trap = trap
  observe diverge = diverge

  -- A run that ends well is seen to end well, with the same result.
  pub observe-done :
      (o : Outcome E S A) (q : Outcome E T A) {a : A} {s : S}
      → observe o ≡ q
      → o ≡ done a s
      → q ≡ done a (view s)
  observe-done o q e d = cc
