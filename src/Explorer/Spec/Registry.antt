-- ===== src/Explorer/Spec/Registry.antt =====
-- The registry of contracts.
use octraban_contract.Common.{
  ℕ, ◌+◌, ◌^◌, Option, none, some, [], ◌∷◌, ◌==◌, ltb, if◌then◌else◌, is_some, ⊤,
}
use octraban_contract.Host.{done, panic, trap, Action, Invocation}
use octraban_contract.Explorer.Types.{
  Error, not_found, unauthorized, already_exists, Address, Bytes32, event_version, ContractMeta,
  Val, Published,
}
use octraban_contract.Explorer.View.{View, update, update₂}
use octraban_contract.Explorer.Spec.Guards.{authorised, running, by_owner, by_owner_or, emit}

unfoldable pub get_contract : Bytes32 → Action Error View ContractMeta
get_contract id v = elim (v.contracts id) [ none ↦ panic not_found | some m ↦ done m v ]

unfoldable pub get_contract_version : Bytes32 → ℕ → Action Error View (Option ContractMeta)
get_contract_version id n v = done (v.versions id n) v

unfoldable pub get_latest_contract : Bytes32 → Action Error View (Option ContractMeta)
get_latest_contract id v = done (v.contracts id) v

-- `m` becomes the current metadata of `id`, and the entry of its history at `m.abi_version`.
abbrev pub publish_version : Bytes32 → ContractMeta → View → View
publish_version id m v = record v {
  contracts = update v.contracts id (some m);
  versions = update₂ v.versions id m.abi_version (some m);
}

module _ (ctx : Invocation) (caller : Address) (id : Bytes32) where
  unfoldable pub register_contract : ContractMeta → Action Error View ⊤
  register_contract meta v =
      let e : Published = record {
        topics = Val.symbol "c_reg" ∷ Val.bytes32 id ∷ [];
        payload =
            Val.u32 event_version
            ∷ Val.address meta.registered_by
            ∷ Val.u32 meta.version
            ∷ Val.u32 ctx.sequence
            ∷ Val.text meta.name
            ∷ [];
      } in
      let stored = record meta { abi_version = 0; min_ledger = ctx.sequence } in
      authorised ctx caller (
        running v (
          by_owner v caller (
            if is_some (v.contracts id)
            then panic already_exists
            else done tt (emit (e ∷ []) (publish_version id stored v)))))

  unfoldable pub update_contract : ContractMeta → Action Error View ⊤
  update_contract meta v = authorised ctx caller (
      running v elim (v.contracts id) [
        | none ↦ panic not_found
        | some old ↦
            let abiu : Published = record {
              topics = Val.symbol "c_abiu" ∷ Val.bytes32 id ∷ [];
              payload =
                  Val.u32 event_version
                  ∷ Val.u32 old.abi_version
                  ∷ Val.u32 meta.abi_version
                  ∷ Val.u32 ctx.sequence
                  ∷ [];
            } in
            let upd : Published = record {
              topics = Val.symbol "c_upd" ∷ Val.bytes32 id ∷ [];
              payload =
                  Val.u32 event_version
                  ∷ Val.address caller
                  ∷ Val.u32 old.version
                  ∷ Val.u32 meta.version
                  ∷ Val.u32 ctx.sequence
                  ∷ [];
            } in
            let stored = record meta { min_ledger = ctx.sequence } in
            by_owner_or v old.registered_by caller (
              if ltb (old.abi_version + 1) (2 ^ 32)
              then if meta.abi_version == old.abi_version + 1
                then done tt (emit (abiu ∷ upd ∷ []) (publish_version id stored v))
                else panic unauthorized
              else trap)
      ])

  unfoldable pub deregister_contract : Action Error View ⊤
  deregister_contract v =
      let e : Published = record {
        topics = Val.symbol "c_dereg" ∷ Val.bytes32 id ∷ [];
        payload = Val.u32 event_version ∷ Val.address caller ∷ Val.u32 ctx.sequence ∷ [];
      } in
      let v' = record v { contracts = update v.contracts id none } in
      authorised ctx caller (
        running v elim (v.contracts id) [
          | none ↦ panic not_found
          | some old ↦ by_owner_or v old.registered_by caller (done tt (emit (e ∷ []) v'))
        ])
