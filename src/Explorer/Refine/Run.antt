-- ===== src/Explorer/Refine/Run.antt =====
-- Invariants of the visible storage over sequences of invocations.
use octraban_contract.Common.{◌≡◌, ◌&&◌, Bool, true, List, [], ◌∷◌, arith, refl}
use octraban_contract.Host.{Outcome, done, panic, trap, diverge, Host, Invocation}
use octraban_contract.Explorer.Types.{Error, Value, Published}
use octraban_contract.Explorer.Contract.{Call, invoke, commit, run}
use octraban_contract.Explorer.View.{View, view}
use octraban_contract.Explorer.Spec
use octraban_contract.Explorer.Refine.Contract.{invoke-done}

-- Every invocation of the sequence passes the test.
abbrev pub every : (Invocation → Call → Bool) → List (Invocation × Call) → Bool
every test [] = true
every test ((ctx, c) ∷ cs) = test ctx c && every test cs

pub every-true : (cs : List (Invocation × Call)) → every (λ _ _. true) cs ≡ true
every-true [] = refl
every-true ((ctx, c) ∷ cs) = every-true cs

module _ (h : Host Value Published) (P : View → Type 0) (test : Invocation → Call → Bool)
    (keeps : (ctx : Invocation) (c : Call) (v v' : View)
      → test ctx c ≡ true
      → Spec.invoke ctx c v ≡ done tt v'
      → P v
      → P v') where
  step-keeps :
      (ctx : Invocation) (c : Call) (s : h.State) (o : Outcome Error h.State (Unit {0}))
      → invoke h ctx c s ≡ o
      → test ctx c ≡ true
      → P (view h s)
      → P (view h (commit o s))
  step-keeps ctx c s (done tt s') e t p =
      keeps ctx c (view h s) (view h s') t (invoke-done h ctx c s s' e) p
  step-keeps ctx c s (panic x) e t p = p
  step-keeps ctx c s trap e t p = p
  step-keeps ctx c s diverge e t p = p

  -- What every successful call that passes a test keeps, every sequence of such calls keeps.
  pub run-keeps :
      (cs : List (Invocation × Call)) (s : h.State)
      → every test cs ≡ true
      → P (view h s)
      → P (view h (run h cs s))
  unfolding run
  run-keeps [] s t p = p
  run-keeps ((ctx, c) ∷ cs) s t p =
      run-keeps cs _ (ground arith) (step-keeps ctx c s (invoke h ctx c s) refl (ground arith) p)
