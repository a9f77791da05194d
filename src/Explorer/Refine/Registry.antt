-- ===== src/Explorer/Refine/Registry.antt =====
-- The registry against its specification.
use octraban_contract.Common.{ℕ, ◌≡◌, arith, append_assoc}
use octraban_contract.Host.{Host, Invocation, persistent_slot}
use octraban_contract.Host.Observe.{observe}
use octraban_contract.Explorer.Types.{Address, Bytes32, contract, ContractMeta, Value, Published}
use octraban_contract.Explorer.Registry
use octraban_contract.Explorer.View.{view}
use octraban_contract.Explorer.View.Laws.{view_laws}
use octraban_contract.Explorer.Spec

module _ (h : Host Value Published) (id : Bytes32) where
  pub get_contract-refines :
      (s : h.State)
      → observe (view h) (Registry.get_contract h id s) ≡ Spec.get_contract id (view h s)
  unfolding Registry.get_contract Spec.get_contract
  get_contract-refines s = grind (arith, view_laws)

  pub get_contract_version-refines :
      (n : ℕ) (s : h.State)
      → observe (view h) (Registry.get_contract_version h id n s)
        ≡ Spec.get_contract_version id n (view h s)
  unfolding Registry.get_contract_version Spec.get_contract_version
  get_contract_version-refines n s = grind (arith, view_laws)

  pub get_latest_contract-refines :
      (s : h.State)
      → observe (view h) (Registry.get_latest_contract h id s)
        ≡ Spec.get_latest_contract id (view h s)
  unfolding Registry.get_latest_contract Spec.get_latest_contract
  get_latest_contract-refines s = grind (arith, view_laws)

module _ (h : Host Value Published) (ctx : Invocation) (caller : Address) (id : Bytes32) where
  pub register_contract-refines :
      (meta : ContractMeta) (s : h.State)
      → observe (view h) (Registry.register_contract h ctx caller id meta s)
        ≡ Spec.register_contract ctx caller id meta (view h s)
  unfolding Registry.register_contract Spec.register_contract
  register_contract-refines meta s =
      grind (arith, h.has-get (persistent_slot (contract id)) s, view_laws)

  pub update_contract-refines :
      (meta : ContractMeta) (s : h.State)
      → observe (view h) (Registry.update_contract h ctx caller id meta s)
        ≡ Spec.update_contract ctx caller id meta (view h s)
  unfolding Registry.update_contract Spec.update_contract
  update_contract-refines meta s = grind (arith, append_assoc, view_laws)

  pub deregister_contract-refines :
      (s : h.State)
      → observe (view h) (Registry.deregister_contract h ctx caller id s)
        ≡ Spec.deregister_contract ctx caller id (view h s)
  unfolding Registry.deregister_contract Spec.deregister_contract
  deregister_contract-refines s = grind (arith, view_laws)
