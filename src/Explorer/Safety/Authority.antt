-- ===== src/Explorer/Safety/Authority.antt =====
-- Every successful call was permitted.
use octraban_contract.Common.{◌≡◌, ◌⊎◌, true, none, some, arith, ⊤, Option-cases, inl, inr}
use octraban_contract.Host.{done, Host, Invocation}
use octraban_contract.Explorer.Types.{Address, Bytes32, ContractMeta, Value, Published}
use octraban_contract.Explorer.Contract.{Call, invoke}
use octraban_contract.Explorer.View.{View, view}
use octraban_contract.Explorer.Spec
use octraban_contract.Explorer.Refine.{invoke-done}

-- The admin itself has authorised the invocation.
abbrev pub ByOwner : Invocation → Address → View → Type 0
ByOwner ctx a v = (ctx.authorised a ≡ true) × (v.owner ≡ some a)

-- The admin, or the registrant of the contract, has authorised the invocation.
abbrev pub ByRegistrant : Invocation → Address → Bytes32 → View → Type 0
ByRegistrant ctx a id v =
    (ctx.authorised a ≡ true)
    × ((m : ContractMeta) × (v.contracts id ≡ some m)
        × ((a ≡ m.registered_by) ⊎ (v.owner ≡ some a)))

-- Who must stand behind each call.
abbrev pub IsPermitted : Invocation → Call → View → Type 0
IsPermitted ctx (Call.init _ _) v = v.owner ≡ none
IsPermitted ctx (Call.transfer_admin a _) v = ByOwner ctx a v
IsPermitted ctx (Call.accept_admin a) v = (ctx.authorised a ≡ true) × (v.nominee ≡ some a)
IsPermitted ctx (Call.cancel_admin_transfer a) v = ByOwner ctx a v
IsPermitted ctx (Call.pause a) v = ByOwner ctx a v
IsPermitted ctx (Call.unpause a) v = ByOwner ctx a v
IsPermitted ctx (Call.set_max_events a _) v = ByOwner ctx a v
IsPermitted ctx (Call.upgrade a _) v = ByOwner ctx a v
IsPermitted ctx (Call.register_contract a _ _) v = ByOwner ctx a v
IsPermitted ctx (Call.update_contract a id _) v = ByRegistrant ctx a id v
IsPermitted ctx (Call.deregister_contract a id) v = ByRegistrant ctx a id v
IsPermitted ctx (Call.submit_event a _) v = ByOwner ctx a v
IsPermitted ctx _ v = ⊤

spec-IsPermitted :
    (ctx : Invocation) (c : Call) (v v' : View) {r : Unit {0}}
    → Spec.invoke ctx c v ≡ done r v'
    → IsPermitted ctx c v
unfolding Spec.invoke
spec-IsPermitted ctx (Call.init _ _) v v' e = ground arith
spec-IsPermitted ctx (Call.update_contract a id m) v v' e = elim (Option-cases (v.contracts id)) [
  | inl absent ↦ ground arith
  | inr (old, held) ↦ (ground arith, (old, held, ground arith))
]
spec-IsPermitted ctx (Call.deregister_contract a id) v v' e = elim (Option-cases (v.contracts id)) [
  | inl absent ↦ ground arith
  | inr (old, held) ↦ (ground arith, (old, held, ground arith))
]
spec-IsPermitted ctx Call.storage_utilisation v v' e = tt
spec-IsPermitted ctx Call.is_paused v v' e = tt
spec-IsPermitted ctx Call.event_count v v' e = tt
spec-IsPermitted ctx (Call.get_contract _) v v' e = tt
spec-IsPermitted ctx (Call.get_latest_contract _) v v' e = tt
spec-IsPermitted ctx (Call.get_contract_version _ _) v v' e = tt
spec-IsPermitted ctx (Call.get_event _) v v' e = tt
spec-IsPermitted ctx (Call.get_events _ _) v v' e = tt
spec-IsPermitted ctx _ v v' e = ground arith

-- A call of any entry point that succeeds was permitted: `init` only while there is no admin, the
-- handover is accepted only by the nominee, an entry of the registry is updated or removed only by
-- the admin or its registrant, every other call but the reads is made by the admin; and each of them
-- has authorised the invocation. `init` needs no authorisation.
pub invoke-IsPermitted :
    (h : Host Value Published) (ctx : Invocation) (c : Call) (s s' : h.State) {r : Unit {0}}
    → invoke h ctx c s ≡ done r s'
    → IsPermitted ctx c (view h s)
invoke-IsPermitted h ctx c s s' e =
    spec-IsPermitted ctx c (view h s) (view h s') (invoke-done h ctx c s s' e)
