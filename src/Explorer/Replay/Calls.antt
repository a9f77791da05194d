-- ===== src/Explorer/Replay/Calls.antt =====
-- The published events of one call of the explorer.
use octraban_contract.Common.{ℕ, ◌≡◌, Bool, true, false, [], ◌∷◌, arith, Option-cases, inl, inr}
use octraban_contract.Host.{done, Invocation}
use octraban_contract.Explorer.Types.{
  Address, Bytes32, event_version, ContractMeta, EventInput, Val, Published,
}
use octraban_contract.Explorer.View.{View}
use octraban_contract.Explorer.Spec
use octraban_contract.Explorer.Replay.{
  Known, known_of, absorb, absorb_handover, absorb_switch, absorb_registry, absorb_event, replay,
  replay-append, IsReplayed,
}

module _ (ctx : Invocation) (id : Bytes32) (k : Known) (v v' : View) (p : IsReplayed id k v)
    {r : Unit {0}} where
  pub transfer_admin-IsReplayed :
      (a b : Address)
      → Spec.transfer_admin ctx a b v ≡ done r v'
      → replay id v'.emitted k ≡ known_of id v'
  unfolding Spec.transfer_admin replay absorb absorb_handover
  transfer_admin-IsReplayed a b e = ground (
    arith,
    p.1,
    replay-append id v.emitted
        (record {
          topics = Val.symbol "adm_nom" ∷ Val.address a ∷ [];
          payload = Val.u32 event_version ∷ Val.address b ∷ [];
        }
          ∷ [])
        k,
  )

  pub accept_admin-IsReplayed :
      (a : Address)
      → Spec.accept_admin ctx a v ≡ done r v'
      → replay id v'.emitted k ≡ known_of id v'
  unfolding Spec.accept_admin replay absorb absorb_handover
  accept_admin-IsReplayed a e = ground (
    arith,
    p.1,
    replay-append id v.emitted
        (record {
          topics = Val.symbol "adm_acc" ∷ Val.address a ∷ [];
          payload = Val.u32 event_version ∷ [];
        }
          ∷ [])
        k,
  )

  pub cancel_admin_transfer-IsReplayed :
      (a : Address)
      → Spec.cancel_admin_transfer ctx a v ≡ done r v'
      → replay id v'.emitted k ≡ known_of id v'
  unfolding Spec.cancel_admin_transfer replay absorb absorb_handover
  cancel_admin_transfer-IsReplayed a e = ground (
    arith,
    p.1,
    replay-append id v.emitted
        (record {
          topics = Val.symbol "adm_cncl" ∷ Val.address a ∷ [];
          payload = Val.u32 event_version ∷ [];
        }
          ∷ [])
        k,
  )

  pub set_paused-IsReplayed :
      (a : Address) (flag : Bool)
      → Spec.set_paused ctx a flag v ≡ done r v'
      → replay id v'.emitted k ≡ known_of id v'
  unfolding Spec.set_paused replay absorb absorb_switch
  set_paused-IsReplayed a true e = ground (
    arith,
    p.1,
    replay-append id v.emitted
        (record { topics = Val.symbol "paused" ∷ []; payload = Val.u32 event_version ∷ [] } ∷ []) k,
  )
  set_paused-IsReplayed a false e = ground (
    arith,
    p.1,
    replay-append id v.emitted
        (record { topics = Val.symbol "unpaused" ∷ []; payload = Val.u32 event_version ∷ [] } ∷ [])
        k,
  )

  pub upgrade-IsReplayed :
      (a w : ℕ) → Spec.upgrade ctx a w v ≡ done r v' → replay id v'.emitted k ≡ known_of id v'
  unfolding Spec.upgrade replay absorb absorb_switch
  upgrade-IsReplayed a w e = ground (
    arith,
    p.1,
    replay-append id v.emitted
        (record {
          topics = Val.symbol "upgrade" ∷ [];
          payload = Val.u32 event_version ∷ Val.bytes32 w ∷ [];
        }
          ∷ [])
        k,
  )

  pub register_contract-IsReplayed :
      (a c : ℕ) (m : ContractMeta)
      → Spec.register_contract ctx a c m v ≡ done r v'
      → replay id v'.emitted k ≡ known_of id v'
  unfolding Spec.register_contract replay absorb absorb_registry
  register_contract-IsReplayed a c m e = ground (
    arith,
    p.1,
    replay-append id v.emitted
        (record {
          topics = Val.symbol "c_reg" ∷ Val.bytes32 c ∷ [];
          payload =
              Val.u32 event_version
              ∷ Val.address m.registered_by
              ∷ Val.u32 m.version
              ∷ Val.u32 ctx.sequence
              ∷ Val.text m.name
              ∷ [];
        }
          ∷ [])
        k,
  )

  pub deregister_contract-IsReplayed :
      (a c : ℕ)
      → Spec.deregister_contract ctx a c v ≡ done r v'
      → replay id v'.emitted k ≡ known_of id v'
  unfolding Spec.deregister_contract replay absorb absorb_registry
  deregister_contract-IsReplayed a c e = ground (
    arith,
    p.1,
    replay-append id v.emitted
        (record {
          topics = Val.symbol "c_dereg" ∷ Val.bytes32 c ∷ [];
          payload = Val.u32 event_version ∷ Val.address a ∷ Val.u32 ctx.sequence ∷ [];
        }
          ∷ [])
        k,
  )

  pub submit_event-IsReplayed :
      (a : ℕ) (input : EventInput)
      → Spec.submit_event ctx a input v ≡ done r v'
      → replay id v'.emitted k ≡ known_of id v'
  unfolding Spec.submit_event replay absorb absorb_event absorb_switch
  submit_event-IsReplayed a input e = ground (
    arith,
    p.1,
    replay-append id v.emitted (Spec.announced (Spec.total_of v) (Spec.capacity_of v) input) k,
  )

  pub update_contract-IsReplayed :
      (a c : ℕ) (m : ContractMeta)
      → Spec.update_contract ctx a c m v ≡ done r v'
      → replay id v'.emitted k ≡ known_of id v'
  unfolding Spec.update_contract replay absorb absorb_registry
  update_contract-IsReplayed a c m e = elim (Option-cases (v.contracts c)) [
    | inl absent ↦ ground arith
    | inr (old, held) ↦
        let abiu : Published = record {
          topics = Val.symbol "c_abiu" ∷ Val.bytes32 c ∷ [];
          payload =
              Val.u32 event_version
              ∷ Val.u32 old.abi_version
              ∷ Val.u32 m.abi_version
              ∷ Val.u32 ctx.sequence
              ∷ [];
        } in
        let upd : Published = record {
          topics = Val.symbol "c_upd" ∷ Val.bytes32 c ∷ [];
          payload =
              Val.u32 event_version
              ∷ Val.address a
              ∷ Val.u32 old.version
              ∷ Val.u32 m.version
              ∷ Val.u32 ctx.sequence
              ∷ [];
        } in
        ground (arith, p.1, replay-append id v.emitted (abiu ∷ upd ∷ []) k)
  ]

pub unchanged-IsReplayed :
    (id : Bytes32) (k : Known) (v v' : View)
    → v' ≡ v
    → IsReplayed id k v
    → replay id v'.emitted k ≡ known_of id v'
unchanged-IsReplayed id k v v' same p = rw same p.1

module _ (ctx : Invocation) (id : Bytes32) (k : Known) (v v' : View) (p : IsReplayed id k v)
    {r : Unit {0}} where
  pub init-IsReplayed :
      (a n : ℕ) → Spec.init a n v ≡ done r v' → replay id v'.emitted k ≡ known_of id v'
  unfolding Spec.init
  init-IsReplayed a n e = absurd (p.0 (ground arith))

  pub set_max_events-IsReplayed :
      (a n : ℕ)
      → Spec.set_max_events ctx a n v ≡ done r v'
      → replay id v'.emitted k ≡ known_of id v'
  unfolding Spec.set_max_events
  set_max_events-IsReplayed a n e = ground (arith, p.1)
