-- ===== src/Explorer/Versions/Invariant.antt =====
-- The current metadata of a contract is always the latest of an unbroken history.
use octraban_contract.Common.{ℕ, ◌≤◌, ◌≡◌, ◌≢◌, true, none, some, List, arith, refl}
use octraban_contract.Host.{done, Host, Invocation}
use octraban_contract.Explorer.Types.{Bytes32, ContractMeta, Value, Published}
use octraban_contract.Explorer.Contract.{Call, run}
use octraban_contract.Explorer.View.{View, view, update}
use octraban_contract.Explorer.Spec
use octraban_contract.Explorer.Refine.{every-true, run-keeps}
use octraban_contract.Explorer.History.Run.{IsFresh}
use octraban_contract.Explorer.Versions.Frame.{
  SameRegistry, Recorded, registered, updated, invoke-SameRegistry, register_contract-Recorded,
  update_contract-Recorded, deregister_contract-removes,
}

pub record IsConsistent (v : View) : Type 0 where
  pub current :
      (id : Bytes32) (m : ContractMeta)
      → v.contracts id ≡ some m
      → v.versions id m.abi_version ≡ some m
  pub numbered :
      (id : Bytes32) (n : ℕ) (m : ContractMeta) → v.versions id n ≡ some m → m.abi_version ≡ n
  pub unbroken :
      (id : Bytes32) (m : ContractMeta) (n : ℕ)
      → v.contracts id ≡ some m
      → n ≤ m.abi_version
      → v.versions id n ≢ none

SameRegistry-IsConsistent : (v v' : View) → SameRegistry v v' → IsConsistent v → IsConsistent v'
SameRegistry-IsConsistent v v' same p = record {
  current = λ id m e. ground (arith, same.contracts, p.current id m);
  numbered = λ id n m e. ground (arith, p.numbered id n m);
  unbroken = λ id m n e le. ground (arith, p.unbroken id m n);
}

-- Recording the version that follows the current one, or version 0, keeps the history.
Recorded-IsConsistent :
    (id : Bytes32) (m : ContractMeta) (v v' : View)
    → ((n : ℕ) → n ≤ m.abi_version → n ≢ m.abi_version → v.versions id n ≢ none)
    → Recorded id m v v'
    → IsConsistent v
    → IsConsistent v'
Recorded-IsConsistent id m v v' below rec p = record {
  current = λ j w e. ground (arith, p.current j w);
  numbered = λ j n w e. ground (arith, p.numbered j n w);
  unbroken = λ j w n e le. ground (arith, below n, p.unbroken j w n);
}

removed-IsConsistent :
    (id : Bytes32) (v v' : View)
    → v'.contracts ≡ update v.contracts id none
    → v'.versions ≡ v.versions
    → IsConsistent v
    → IsConsistent v'
removed-IsConsistent id v v' gone same p = record {
  current = λ j w e. ground (arith, p.current j w);
  numbered = λ j n w e. ground (arith, p.numbered j n w);
  unbroken = λ j w n e le. ground (arith, p.unbroken j w n);
}

-- Every successful call keeps the registry consistent.
spec-IsConsistent :
    (ctx : Invocation) (c : Call) (v v' : View)
    → Spec.invoke ctx c v ≡ done tt v'
    → IsConsistent v
    → IsConsistent v'
unfolding Spec.invoke
spec-IsConsistent ctx (Call.register_contract a id meta) v v' e p =
    let (absent, rec) = register_contract-Recorded ctx a id v v' meta e in
    Recorded-IsConsistent id (registered ctx meta) v v' (λ n le ne. absurd (ne (omega arith))) rec p
spec-IsConsistent ctx (Call.update_contract a id meta) v v' e p =
    let (old, held, next, rec) = update_contract-Recorded ctx a id v v' meta e in
    Recorded-IsConsistent id (updated ctx meta) v v'
      (λ n le ne. p.unbroken id old n held (omega arith)) rec p
spec-IsConsistent ctx (Call.deregister_contract a id) v v' e p =
    let (gone, same) = deregister_contract-removes ctx a id v v' e in
    removed-IsConsistent id v v' gone same p
spec-IsConsistent ctx c v v' e p =
    SameRegistry-IsConsistent v v' (invoke-SameRegistry ctx c v v' refl e) p

IsFresh-IsConsistent : (v : View) → IsFresh v → IsConsistent v
IsFresh-IsConsistent v fresh = record {
  current = λ id m e. ground (arith, fresh.contracts id);
  numbered = λ id n m e. ground (arith, fresh.versions id n);
  unbroken = λ id m n e le. ground (arith, fresh.contracts id);
}

-- After any sequence of invocations on a new contract the current metadata of every registered
-- contract is the version of its history that its `abi_version` names, every recorded version stands
-- under its own number, and no version up to the current one is missing.
pub run-IsConsistent :
    (h : Host Value Published) (cs : List (Invocation × Call)) (s : h.State)
    → IsFresh (view h s)
    → IsConsistent (view h (run h cs s))
run-IsConsistent h cs s fresh =
    run-keeps h IsConsistent (λ _ _. true) (λ ctx c v v' _ e p. spec-IsConsistent ctx c v v' e p) cs
      s (every-true cs) (IsFresh-IsConsistent (view h s) fresh)
