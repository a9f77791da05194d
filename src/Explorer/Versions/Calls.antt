-- ===== src/Explorer/Versions/Calls.antt =====
-- What the registry returns after the calls that write it.
use native.Mathlib.Decide.{ℕ_discrete}
use octraban_contract.Common.{
  ◌==◌, if◌then◌else◌, ℕ, ◌+◌, ◌≡◌, ◌≢◌, ◌∙◌, none, some, Option, arith, refl, ap, sym,
}
use octraban_contract.Host.{done, panic, Host, Invocation}
use octraban_contract.Host.Observe.{observe, observe-done}
use octraban_contract.Explorer.Types.{not_found, Address, Bytes32, ContractMeta, Value, Published}
use octraban_contract.Explorer.Registry
use octraban_contract.Explorer.View.{View, view}
use octraban_contract.Explorer.Spec
use octraban_contract.Explorer.Refine.{
  get_contract-refines, get_contract_version-refines, register_contract-refines,
  update_contract-refines, deregister_contract-refines,
}
use octraban_contract.Explorer.Versions.Frame.{
  Recorded, registered, updated, register_contract-Recorded, update_contract-Recorded,
  deregister_contract-removes, Recorded-contracts, Recorded-versions, Recorded-versions_ne,
  removed-contracts,
}

Recorded-versions_at :
    (id : Bytes32) (m : ContractMeta) (v v' : View)
    → Recorded id m v v'
    → (n : ℕ) → v'.versions id n ≡ (if m.abi_version == n then some m else v.versions id n)
Recorded-versions_at id m v v' rec n = elim (ℕ_discrete m.abi_version n) [
  | yes same ↦ ground (arith, Recorded-versions id m v v' rec n)
  | no other ↦ ground (arith, Recorded-versions_ne id m v v' rec n)
]

module _ (h : Host Value Published) (id : Bytes32) (s : h.State) where
  -- What `get_contract` and `get_contract_version` return, by the visible storage.
  get_contract_of :
      (m : ContractMeta)
      → (view h s).contracts id ≡ some m
      → observe (view h) (Registry.get_contract h id s) ≡ done m (view h s)
  unfolding Spec.get_contract
  get_contract_of m e = get_contract-refines h id s ∙ ground arith

  get_contract_of_none :
      (view h s).contracts id ≡ none
      → observe (view h) (Registry.get_contract h id s) ≡ panic not_found
  unfolding Spec.get_contract
  get_contract_of_none e = get_contract-refines h id s ∙ ground arith

  get_contract_version_of :
      (n : ℕ) (o : Option ContractMeta)
      → (view h s).versions id n ≡ o
      → observe (view h) (Registry.get_contract_version h id n s) ≡ done o (view h s)
  unfolding Spec.get_contract_version
  get_contract_version_of n o e = get_contract_version-refines h id n s ∙ ground arith

module _ (h : Host Value Published) (ctx : Invocation) (a : Address) (id : Bytes32) where
  -- After a successful `register_contract` both reads return what was given, with version 0 and
  -- the ledger of the call.
  pub get_contract-register_contract :
      (meta : ContractMeta) (s s' : h.State) {r : Unit {0}}
      → Registry.register_contract h ctx a id meta s ≡ done r s'
      → (observe (view h) (Registry.get_contract h id s') ≡ done (registered ctx meta) (view h s'))
        × (observe (view h) (Registry.get_contract_version h id 0 s')
            ≡ done (some (registered ctx meta)) (view h s'))
  get_contract-register_contract meta s s' e =
      let spec =
        observe-done (view h) (Registry.register_contract h ctx a id meta s) _
          (register_contract-refines h ctx a id meta s) e in
      let (absent, rec) = register_contract-Recorded ctx a id (view h s) (view h s') meta spec in
      (
        get_contract_of h id s' (registered ctx meta)
            (Recorded-contracts id (registered ctx meta) (view h s) (view h s') rec),
        get_contract_version_of h id s' 0 (some (registered ctx meta))
            (Recorded-versions id (registered ctx meta) (view h s) (view h s') rec 0 refl),
      )

  -- A successful `update_contract` was of version `n` to version `n + 1`; after it `get_contract` and
  -- `get_contract_version` of the new number return what was given, with the ledger of the
  -- call, and `get_contract_version` of every other number returns what was recorded before.
  pub get_contract-update_contract :
      (meta : ContractMeta) (s s' : h.State) {r : Unit {0}} (n : ℕ)
      → Registry.update_contract h ctx a id meta s ≡ done r s'
      → ((old : ContractMeta) × ((view h s).contracts id ≡ some old)
          × (meta.abi_version ≡ old.abi_version + 1))
        × (observe (view h) (Registry.get_contract h id s') ≡ done (updated ctx meta) (view h s'))
        × (observe (view h) (Registry.get_contract_version h id n s')
            ≡ done
                (if meta.abi_version == n
                  then some (updated ctx meta)
                  else (view h s).versions id n)
                (view h s'))
  get_contract-update_contract meta s s' n e =
      let spec =
        observe-done (view h) (Registry.update_contract h ctx a id meta s) _
          (update_contract-refines h ctx a id meta s) e in
      let (old, held, next, rec) =
        update_contract-Recorded ctx a id (view h s) (view h s') meta spec in
      (
        (old, held, next),
        get_contract_of h id s' (updated ctx meta)
            (Recorded-contracts id (updated ctx meta) (view h s) (view h s') rec),
        get_contract_version_of h id s' n _
            (Recorded-versions_at id (updated ctx meta) (view h s) (view h s') rec n),
      )

  -- Of two updates prepared for the same version only one succeeds: after the first, the second
  -- one fails, whoever sends it.
  pub stale_update :
      (ctx' : Invocation) (b : Address) (meta meta' : ContractMeta) (s s' s'' : h.State)
      {r r' : Unit {0}}
      → Registry.update_contract h ctx a id meta s ≡ done r s'
      → meta'.abi_version ≡ meta.abi_version
      → Registry.update_contract h ctx' b id meta' s' ≢ done r' s''
  stale_update ctx' b meta meta' s s' s'' e same e' =
      let spec =
        observe-done (view h) (Registry.update_contract h ctx a id meta s) _
          (update_contract-refines h ctx a id meta s) e in
      let spec' =
        observe-done (view h) (Registry.update_contract h ctx' b id meta' s') _
          (update_contract-refines h ctx' b id meta' s') e' in
      let (old, held, next, rec) =
        update_contract-Recorded ctx a id (view h s) (view h s') meta spec in
      let (old', held', next', rec') =
        update_contract-Recorded ctx' b id (view h s') (view h s'') meta' spec' in
      let now : some (updated ctx meta) ≡ some old' =
        sym (Recorded-contracts id (updated ctx meta) (view h s) (view h s') rec) ∙ held' in
      ground arith

  -- After a successful `deregister_contract` the contract is not found, but every version of its
  -- history is still returned.
  pub get_contract-deregister_contract :
      (s s' : h.State) {r : Unit {0}}
      → Registry.deregister_contract h ctx a id s ≡ done r s'
      → (observe (view h) (Registry.get_contract h id s') ≡ panic not_found)
        × ((n : ℕ)
            → observe (view h) (Registry.get_contract_version h id n s')
              ≡ done ((view h s).versions id n) (view h s'))
  get_contract-deregister_contract s s' e =
      let spec =
        observe-done (view h) (Registry.deregister_contract h ctx a id s) _
          (deregister_contract-refines h ctx a id s) e in
      let (gone, same) = deregister_contract-removes ctx a id (view h s) (view h s') spec in
      (
        get_contract_of_none h id s' (removed-contracts id (view h s) (view h s') gone),
        λ n. get_contract_version_of h id s' n ((view h s).versions id n) (ap (λ f. f id n) same),
      )

-- After a successful deregistration and then a successful registration of the same contract,
-- `get_contract` returns what was given with version 0 and the ledger of the call, while
-- `get_contract_version` of every number but 0 returns what was recorded before the deregistration.
pub get_contract_version-register_contract :
    (h : Host Value Published) (ctx ctx' : Invocation) (a b : Address) (id : Bytes32)
    (meta : ContractMeta) (s s' s'' : h.State) {r r' : Unit {0}} (n : ℕ)
    → Registry.deregister_contract h ctx a id s ≡ done r s'
    → Registry.register_contract h ctx' b id meta s' ≡ done r' s''
    → n ≢ 0
    → (observe (view h) (Registry.get_contract h id s'') ≡ done (registered ctx' meta) (view h s''))
      × (observe (view h) (Registry.get_contract_version h id n s'')
          ≡ done ((view h s).versions id n) (view h s''))
get_contract_version-register_contract h ctx ctx' a b id meta s s' s'' n gone again pos =
    let off =
      observe-done (view h) (Registry.deregister_contract h ctx a id s) _
        (deregister_contract-refines h ctx a id s) gone in
    let on =
      observe-done (view h) (Registry.register_contract h ctx' b id meta s') _
        (register_contract-refines h ctx' b id meta s') again in
    let (cleared, same) = deregister_contract-removes ctx a id (view h s) (view h s') off in
    let (absent, rec) = register_contract-Recorded ctx' b id (view h s') (view h s'') meta on in
    (
      (get_contract-register_contract h ctx' b id meta s' s'' again).0,
      get_contract_version_of h id s'' n _ (
          Recorded-versions_ne id (registered ctx' meta) (view h s') (view h s'') rec n pos
          ∙ ap (λ f. f id n) same),
    )
