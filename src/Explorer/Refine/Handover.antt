-- ===== src/Explorer/Refine/Handover.antt =====
-- Initialisation, the handover of the admin, pausing and upgrades against their specifications.
use octraban_contract.Common.{ℕ, ◌≡◌, true, false, arith}
use octraban_contract.Host.{Host, Invocation, instance_slot}
use octraban_contract.Host.Observe.{observe}
use octraban_contract.Explorer.Types.{Address, Bytes32, admin, pending_admin, Value, Published}
use octraban_contract.Explorer.Admin
use octraban_contract.Explorer.View.{view}
use octraban_contract.Explorer.View.Laws.{view_laws}
use octraban_contract.Explorer.Spec

module _ (h : Host Value Published) where
  pub init-refines :
      (a : Address) (capacity : ℕ) (s : h.State)
      → observe (view h) (Admin.init h a capacity s) ≡ Spec.init a capacity (view h s)
  unfolding Admin.init Spec.init
  init-refines a capacity s = grind (arith, h.has-get (instance_slot admin) s, view_laws)

  pub is_paused-refines :
      (s : h.State) → observe (view h) (Admin.is_paused h s) ≡ Spec.is_paused (view h s)
  unfolding Admin.is_paused Spec.is_paused
  is_paused-refines s = ground arith

module _ (h : Host Value Published) (ctx : Invocation) (caller : Address) where
  pub transfer_admin-refines :
      (new_admin : Address) (s : h.State)
      → observe (view h) (Admin.transfer_admin h ctx caller new_admin s)
        ≡ Spec.transfer_admin ctx caller new_admin (view h s)
  unfolding Admin.transfer_admin Spec.transfer_admin
  transfer_admin-refines new_admin s = grind (arith, view_laws)

  pub accept_admin-refines :
      (s : h.State)
      → observe (view h) (Admin.accept_admin h ctx caller s)
        ≡ Spec.accept_admin ctx caller (view h s)
  unfolding Admin.accept_admin Spec.accept_admin
  accept_admin-refines s = grind (arith, view_laws)

  pub cancel_admin_transfer-refines :
      (s : h.State)
      → observe (view h) (Admin.cancel_admin_transfer h ctx caller s)
        ≡ Spec.cancel_admin_transfer ctx caller (view h s)
  unfolding Admin.cancel_admin_transfer Spec.cancel_admin_transfer
  cancel_admin_transfer-refines s =
      grind (arith, h.has-get (instance_slot pending_admin) s, view_laws)

  pub pause-refines :
      (s : h.State)
      → observe (view h) (Admin.pause h ctx caller s) ≡ Spec.set_paused ctx caller true (view h s)
  unfolding Admin.pause Spec.set_paused
  pause-refines s = grind (arith, view_laws)

  pub unpause-refines :
      (s : h.State)
      → observe (view h) (Admin.unpause h ctx caller s)
        ≡ Spec.set_paused ctx caller false (view h s)
  unfolding Admin.unpause Spec.set_paused
  unpause-refines s = grind (arith, view_laws)

  pub upgrade-refines :
      (hash : Bytes32) (s : h.State)
      → observe (view h) (Admin.upgrade h ctx caller hash s)
        ≡ Spec.upgrade ctx caller hash (view h s)
  unfolding Admin.upgrade Spec.upgrade
  upgrade-refines hash s = grind (arith, view_laws)
