-- ===== src/Explorer/Tests/RegistryWitnesses.antt =====
-- The theorems on the registry and on the TTL policy at concrete inputs.
use octraban_contract.Common.{arith, ℕ, ◌+◌, ◌≡◌, ◌≢◌, some, List, [], ◌∷◌, refl}
use octraban_contract.Host.{done, panic, Invocation}
use octraban_contract.Host.Observe.{observe}
use octraban_contract.Explorer.Types.{ContractMeta, not_found}
use octraban_contract.Explorer.Registry
use octraban_contract.Explorer.Contract.{Call, run, commit}
use octraban_contract.Explorer.View.{view}
use octraban_contract.Explorer.Tests.Model.{host, fresh}
use octraban_contract.Explorer.Tests.Runs.{
  ctx, meta, opened, registered_state, updated_state, removed_state, program,
}
use octraban_contract.Explorer.Versions.Frame.{registered, updated}
use octraban_contract.Explorer.Versions.Invariant.{IsConsistent, run-IsConsistent}
use octraban_contract.Explorer.Versions.Calls.{
  get_contract-register_contract, get_contract-update_contract, stale_update,
  get_contract-deregister_contract, get_contract_version-register_contract,
}
use octraban_contract.Explorer.Tests.RingWitnesses.{fresh-IsFresh}

abbrev both : List (Invocation × Call)
both =
    (ctx, Call.init 1 2)
    ∷ (ctx, Call.register_contract 1 7 (meta 0))
    ∷ (ctx, Call.update_contract 5 7 (meta 1))
    ∷ []

run-IsConsistent_example : IsConsistent (view host (run host both fresh))
run-IsConsistent_example = run-IsConsistent host both fresh fresh-IsFresh

get_contract-register_contract_example :
    (observe (view host) (Registry.get_contract host 7 registered_state)
      ≡ done (registered ctx (meta 0)) (view host registered_state))
    × (observe (view host) (Registry.get_contract_version host 7 0 registered_state)
        ≡ done (some (registered ctx (meta 0))) (view host registered_state))
unfolding program
get_contract-register_contract_example =
    get_contract-register_contract host ctx 1 7 (meta 0) opened registered_state refl

get_contract-update_contract_example :
    ((old : ContractMeta) × ((view host registered_state).contracts 7 ≡ some old)
      × (1 ≡ old.abi_version + 1))
    × (observe (view host) (Registry.get_contract host 7 updated_state)
        ≡ done (updated ctx (meta 1)) (view host updated_state))
    × (observe (view host) (Registry.get_contract_version host 7 0 updated_state)
        ≡ done (some (registered ctx (meta 0))) (view host updated_state))
unfolding program
get_contract-update_contract_example =
    get_contract-update_contract host ctx 5 7 (meta 1) registered_state updated_state 0 refl

stale_update_example :
    Registry.update_contract host ctx 1 7 (meta 1) updated_state ≢ done tt updated_state
unfolding program
stale_update_example =
    stale_update host ctx 5 7 ctx 1 (meta 1) (meta 1) registered_state updated_state updated_state
      refl refl

get_contract-deregister_contract_example :
    (observe (view host) (Registry.get_contract host 7 removed_state) ≡ panic not_found)
    × ((n : ℕ)
        → observe (view host) (Registry.get_contract_version host 7 n removed_state)
          ≡ done ((view host updated_state).versions 7 n) (view host removed_state))
unfolding program
get_contract-deregister_contract_example =
    get_contract-deregister_contract host ctx 5 7 updated_state removed_state refl

-- The contract 7 registered again.
abbrev again_state : host.State
again_state = commit (Registry.register_contract host ctx 1 7 (meta 0) removed_state) removed_state

one_ne_zero : ◌≢◌ {A = ℕ} 1 0
one_ne_zero = omega arith

get_contract_version-register_contract_example :
    (observe (view host) (Registry.get_contract host 7 again_state)
      ≡ done (registered ctx (meta 0)) (view host again_state))
    × (observe (view host) (Registry.get_contract_version host 7 1 again_state)
        ≡ done (some (updated ctx (meta 1))) (view host again_state))
unfolding program
get_contract_version-register_contract_example =
    get_contract_version-register_contract host ctx ctx 5 1 7 (meta 0) updated_state removed_state
      again_state 1 refl refl one_ne_zero
