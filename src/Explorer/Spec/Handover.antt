-- ===== src/Explorer/Spec/Handover.antt =====
-- Initialisation, handover, pausing and upgrades.
use octraban_contract.Common.{
  ℕ, Bool, false, none, some, [], ◌∷◌, ◌==◌, if◌then◌else◌, is_some, unwrap_or, ⊤,
}
use octraban_contract.Host.{done, panic, trap, Action, Invocation}
use octraban_contract.Explorer.Types.{
  Error, not_found, unauthorized, already_exists, Address, Bytes32, default_max_events,
  event_version, Val, Published,
}
use octraban_contract.Explorer.View.{View}
use octraban_contract.Explorer.Spec.Guards.{authorised, running, by_owner, emit}

unfoldable pub init : Address → ℕ → Action Error View ⊤
init a capacity v =
    if is_some v.owner
    then panic already_exists
    else done tt record v {
      owner = some a;
      total = some 0;
      capacity = some (if capacity == 0 then default_max_events else capacity);
    }

unfoldable pub is_paused : Action Error View Bool
is_paused v = done (unwrap_or v.frozen false) v

module _ (ctx : Invocation) (caller : Address) where
  unfoldable pub transfer_admin : Address → Action Error View ⊤
  transfer_admin new_admin v =
      let e : Published = record {
        topics = Val.symbol "adm_nom" ∷ Val.address caller ∷ [];
        payload = Val.u32 event_version ∷ Val.address new_admin ∷ [];
      } in
      authorised ctx caller
        (by_owner v caller (done tt (emit (e ∷ []) (record v { nominee = some new_admin }))))

  unfoldable pub accept_admin : Action Error View ⊤
  accept_admin v =
      let e : Published = record {
        topics = Val.symbol "adm_acc" ∷ Val.address caller ∷ [];
        payload = Val.u32 event_version ∷ [];
      } in
      authorised ctx caller elim v.nominee [
        | none ↦ panic not_found
        | some n ↦
            if caller == n
            then done tt (emit (e ∷ []) (record v { owner = some caller; nominee = none }))
            else panic unauthorized
      ]

  unfoldable pub cancel_admin_transfer : Action Error View ⊤
  cancel_admin_transfer v =
      let e : Published = record {
        topics = Val.symbol "adm_cncl" ∷ Val.address caller ∷ [];
        payload = Val.u32 event_version ∷ [];
      } in
      authorised ctx caller (
        by_owner v caller (
          if is_some v.nominee
          then done tt (emit (e ∷ []) (record v { nominee = none }))
          else panic not_found))

  -- `pause` and `unpause`: the flag set, and the event that says so.
  unfoldable pub set_paused : Bool → Action Error View ⊤
  set_paused flag v =
      let e : Published = record {
        topics = Val.symbol (if flag then "paused" else "unpaused") ∷ [];
        payload = Val.u32 event_version ∷ [];
      } in
      authorised ctx caller
        (by_owner v caller (done tt (emit (e ∷ []) (record v { frozen = some flag }))))

  unfoldable pub upgrade : Bytes32 → Action Error View ⊤
  upgrade new_wasm_hash v =
      let e : Published = record {
        topics = Val.symbol "upgrade" ∷ [];
        payload = Val.u32 event_version ∷ Val.bytes32 new_wasm_hash ∷ [];
      } in
      authorised ctx caller (
        running v (
          by_owner v caller (
            if ctx.uploaded new_wasm_hash
            then done tt (emit (e ∷ []) (record v { code = some new_wasm_hash }))
            else trap)))
