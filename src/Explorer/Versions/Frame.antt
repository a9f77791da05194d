-- ===== src/Explorer/Versions/Frame.antt =====
-- What each call does to the registry.
use octraban_contract.Common.{
  ℕ, ◌+◌, ◌≡◌, ◌≢◌, Bool, true, false, none, some, arith, refl, Option-cases, inl, inr,
}
use octraban_contract.Host.{done, Invocation}
use octraban_contract.Explorer.Types.{Address, Bytes32, ContractMeta}
use octraban_contract.Explorer.Contract.{Call}
use octraban_contract.Explorer.View.{View, update, update₂}
use octraban_contract.Explorer.Spec
use octraban_contract.Explorer.Safety.Reads.{read-view}

-- The calls that write the registry.
abbrev pub touches_registry : Call → Bool
touches_registry (Call.register_contract _ _ _) = true
touches_registry (Call.update_contract _ _ _) = true
touches_registry (Call.deregister_contract _ _) = true
touches_registry _ = false

pub record SameRegistry (v v' : View) : Type 0 where
  pub contracts : v'.contracts ≡ v.contracts
  pub versions : v'.versions ≡ v.versions

-- The metadata `m` became the current one of `id`, and its version was recorded.
pub record Recorded (id : Bytes32) (m : ContractMeta) (v v' : View) : Type 0 where
  pub contracts : v'.contracts ≡ update v.contracts id (some m)
  pub versions : v'.versions ≡ update₂ v.versions id m.abi_version (some m)

abbrev pub registered : Invocation → ContractMeta → ContractMeta
registered ctx meta = record meta { abi_version = 0; min_ledger = ctx.sequence }

abbrev pub updated : Invocation → ContractMeta → ContractMeta
updated ctx meta = record meta { min_ledger = ctx.sequence }

pub invoke-SameRegistry :
    (ctx : Invocation) (c : Call) (v v' : View) {r : Unit {0}}
    → touches_registry c ≡ false
    → Spec.invoke ctx c v ≡ done r v'
    → SameRegistry v v'
unfolding Spec.invoke
invoke-SameRegistry ctx (Call.init _ _) v v' t e = ground arith
invoke-SameRegistry ctx (Call.get_event n) v v' t e =
    let same = read-view ctx (Call.get_event n) v v' refl e in ground arith
invoke-SameRegistry ctx (Call.get_events c l) v v' t e =
    let same = read-view ctx (Call.get_events c l) v v' refl e in ground arith
invoke-SameRegistry ctx _ v v' t e = ground arith

module _ (ctx : Invocation) (a : Address) (id : Bytes32) (v v' : View) {r : Unit {0}} where
  pub register_contract-Recorded :
      (meta : ContractMeta)
      → Spec.register_contract ctx a id meta v ≡ done r v'
      → (v.contracts id ≡ none) × Recorded id (registered ctx meta) v v'
  unfolding Spec.register_contract
  register_contract-Recorded meta e = ground arith

  pub update_contract-Recorded :
      (meta : ContractMeta)
      → Spec.update_contract ctx a id meta v ≡ done r v'
      → (old : ContractMeta) × (v.contracts id ≡ some old)
        × (meta.abi_version ≡ old.abi_version + 1)
        × Recorded id (updated ctx meta) v v'
  unfolding Spec.update_contract
  update_contract-Recorded meta e = elim (Option-cases (v.contracts id)) [
    | inl absent ↦ absurd (ground arith)
    | inr (old, held) ↦ (old, held, ground arith, ground arith)
  ]

  pub deregister_contract-removes :
      Spec.deregister_contract ctx a id v ≡ done r v'
      → (v'.contracts ≡ update v.contracts id none) × (v'.versions ≡ v.versions)
  unfolding Spec.deregister_contract
  deregister_contract-removes e = ground arith

module _ (id : Bytes32) (m : ContractMeta) (v v' : View) (rec : Recorded id m v v') where
  pub Recorded-contracts : v'.contracts id ≡ some m
  Recorded-contracts = ground (arith, rec.contracts)

  pub Recorded-versions : (n : ℕ) → n ≡ m.abi_version → v'.versions id n ≡ some m
  Recorded-versions n e = ground (arith, rec.versions)

  pub Recorded-versions_ne : (n : ℕ) → n ≢ m.abi_version → v'.versions id n ≡ v.versions id n
  Recorded-versions_ne n ne = ground (arith, rec.versions)

pub removed-contracts :
    (id : Bytes32) (v v' : View)
    → v'.contracts ≡ update v.contracts id none
    → v'.contracts id ≡ none
removed-contracts id v v' gone = ground arith
