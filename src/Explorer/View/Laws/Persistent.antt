-- ===== src/Explorer/View/Laws/Persistent.antt =====
-- Writes to persistent entries, each of which changes one entry of one family.
use native.Mathlib.Decide.{ℕ_discrete}
use octraban_contract.Common.{ℕ, ◌≡◌, fun_ext, some, none, arith}
use octraban_contract.Host.{Host, instance_slot, persistent_slot}
use octraban_contract.Explorer.Types.{
  Bytes32, admin, pending_admin, contract, event_log, event_seq, max_events, paused,
  contract_version, VersionKey, ContractMeta, DecodedEvent, Value, Published,
}
use octraban_contract.Explorer.View.{view, update, update₂}

module _ (h : Host Value Published) where
  get-set_contract :
      (x : ℕ) (v : ContractMeta) (s : h.State) (j : ℕ)
      → h.get (persistent_slot (contract j)) (h.set (persistent_slot (contract x)) v s)
        ≡ update (view h s).contracts x (some v) j
  get-set_contract x v s j = elim (ℕ_discrete x j) [
    | yes e ↦ rw (← e) (ground (arith, h.get-set_self (persistent_slot (contract x)) v s))
    | no ne ↦ ground (
      arith,
      h.get-set_ne (persistent_slot (contract x)) (persistent_slot (contract j)) v s (λ e. ne (cc)),
    )
  ]

  pub view-set_contract :
      (x : Bytes32) (v : ContractMeta) (s : h.State)
      → view h (h.set (persistent_slot (contract x)) v s)
        ≡ record (view h s) { contracts = update (view h s).contracts x (some v) }
  view-set_contract x v s = λ i. record {
    owner = h.get-set_ne (persistent_slot (contract x)) (instance_slot admin) v s (λ e. cc) i;
    nominee =
        h.get-set_ne (persistent_slot (contract x)) (instance_slot pending_admin) v s (λ e. cc) i;
    total = h.get-set_ne (persistent_slot (contract x)) (instance_slot event_seq) v s (λ e. cc) i;
    capacity =
        h.get-set_ne (persistent_slot (contract x)) (instance_slot max_events) v s (λ e. cc) i;
    frozen = h.get-set_ne (persistent_slot (contract x)) (instance_slot paused) v s (λ e. cc) i;
    contracts = fun_ext (λ j. get-set_contract x v s j) i;
    versions =
        fun_ext
          (λ j. fun_ext (λ k.
            h.get-set_ne (persistent_slot (contract x))
              (persistent_slot (contract_version (record { contract_id = j; abi_version = k }))) v s
              (λ e. cc)))
          i;
    log =
        fun_ext
          (λ j.
            h.get-set_ne (persistent_slot (contract x)) (persistent_slot (event_log j)) v s
              (λ e. cc))
          i;
    emitted = h.events-set (persistent_slot (contract x)) v s i;
    code = h.wasm-set (persistent_slot (contract x)) v s i;
  }

  get-remove_contract :
      (x : ℕ) (s : h.State) (j : ℕ)
      → h.get (persistent_slot (contract j)) (h.remove (persistent_slot (contract x)) s)
        ≡ update (view h s).contracts x none j
  get-remove_contract x s j = elim (ℕ_discrete x j) [
    | yes e ↦ rw (← e) (ground (arith, h.get-remove_self (persistent_slot (contract x)) s))
    | no ne ↦ ground (
      arith,
      h.get-remove_ne (persistent_slot (contract x)) (persistent_slot (contract j)) s
          (λ e. ne (cc)),
    )
  ]

  pub view-remove_contract :
      (x : Bytes32) (s : h.State)
      → view h (h.remove (persistent_slot (contract x)) s)
        ≡ record (view h s) { contracts = update (view h s).contracts x none }
  view-remove_contract x s = λ i. record {
    owner = h.get-remove_ne (persistent_slot (contract x)) (instance_slot admin) s (λ e. cc) i;
    nominee =
        h.get-remove_ne (persistent_slot (contract x)) (instance_slot pending_admin) s (λ e. cc) i;
    total = h.get-remove_ne (persistent_slot (contract x)) (instance_slot event_seq) s (λ e. cc) i;
    capacity =
        h.get-remove_ne (persistent_slot (contract x)) (instance_slot max_events) s (λ e. cc) i;
    frozen = h.get-remove_ne (persistent_slot (contract x)) (instance_slot paused) s (λ e. cc) i;
    contracts = fun_ext (λ j. get-remove_contract x s j) i;
    versions =
        fun_ext
          (λ j. fun_ext (λ k.
            h.get-remove_ne (persistent_slot (contract x))
              (persistent_slot (contract_version (record { contract_id = j; abi_version = k }))) s
              (λ e. cc)))
          i;
    log =
        fun_ext
          (λ j.
            h.get-remove_ne (persistent_slot (contract x)) (persistent_slot (event_log j)) s
              (λ e. cc))
          i;
    emitted = h.events-remove (persistent_slot (contract x)) s i;
    code = h.wasm-remove (persistent_slot (contract x)) s i;
  }

  get-set_event_log :
      (x : ℕ) (v : DecodedEvent) (s : h.State) (j : ℕ)
      → h.get (persistent_slot (event_log j)) (h.set (persistent_slot (event_log x)) v s)
        ≡ update (view h s).log x (some v) j
  get-set_event_log x v s j = elim (ℕ_discrete x j) [
    | yes e ↦ rw (← e) (ground (arith, h.get-set_self (persistent_slot (event_log x)) v s))
    | no ne ↦ ground (
      arith,
      h.get-set_ne (persistent_slot (event_log x)) (persistent_slot (event_log j)) v s
          (λ e. ne (cc)),
    )
  ]

  pub view-set_event_log :
      (x : ℕ) (v : DecodedEvent) (s : h.State)
      → view h (h.set (persistent_slot (event_log x)) v s)
        ≡ record (view h s) { log = update (view h s).log x (some v) }
  view-set_event_log x v s = λ i. record {
    owner = h.get-set_ne (persistent_slot (event_log x)) (instance_slot admin) v s (λ e. cc) i;
    nominee =
        h.get-set_ne (persistent_slot (event_log x)) (instance_slot pending_admin) v s (λ e. cc) i;
    total = h.get-set_ne (persistent_slot (event_log x)) (instance_slot event_seq) v s (λ e. cc) i;
    capacity =
        h.get-set_ne (persistent_slot (event_log x)) (instance_slot max_events) v s (λ e. cc) i;
    frozen = h.get-set_ne (persistent_slot (event_log x)) (instance_slot paused) v s (λ e. cc) i;
    contracts =
        fun_ext
          (λ j.
            h.get-set_ne (persistent_slot (event_log x)) (persistent_slot (contract j)) v s
              (λ e. cc))
          i;
    versions =
        fun_ext
          (λ j. fun_ext (λ k.
            h.get-set_ne (persistent_slot (event_log x))
              (persistent_slot (contract_version (record { contract_id = j; abi_version = k }))) v s
              (λ e. cc)))
          i;
    log = fun_ext (λ j. get-set_event_log x v s j) i;
    emitted = h.events-set (persistent_slot (event_log x)) v s i;
    code = h.wasm-set (persistent_slot (event_log x)) v s i;
  }

  abbrev vkey : Bytes32 → ℕ → VersionKey
  vkey id n = record { contract_id = id; abi_version = n }

  get-set_version :
      (x n : ℕ) (v : ContractMeta) (s : h.State) (j k : ℕ)
      → h.get
          (persistent_slot (contract_version (vkey j k)))
          (h.set (persistent_slot (contract_version (vkey x n))) v s)
        ≡ update₂ (view h s).versions x n (some v) j k
  get-set_version x n v s j k =
      let p = persistent_slot (contract_version (vkey x n)) in
      let q = persistent_slot (contract_version (vkey j k)) in
      elim (ℕ_discrete x j) [
        | yes e ↦ elim (ℕ_discrete n k) [
          | yes e' ↦ rw (← e, ← e') (ground (arith, h.get-set_self p v s))
          | no ne ↦ ground (arith, h.get-set_ne p q v s (λ e'. ne (cc)))
        ]
        | no ne ↦ ground (arith, h.get-set_ne p q v s (λ e. ne (cc)))
      ]

  pub view-set_contract_version :
      (x : Bytes32) (n : ℕ) (v : ContractMeta) (s : h.State)
      → view h (h.set (persistent_slot (contract_version (vkey x n))) v s)
        ≡ record (view h s) { versions = update₂ (view h s).versions x n (some v) }
  view-set_contract_version x n v s = λ i. record {
    owner =
        h.get-set_ne (persistent_slot (contract_version (vkey x n))) (instance_slot admin) v s
          (λ e. cc) i;
    nominee =
        h.get-set_ne (persistent_slot (contract_version (vkey x n))) (instance_slot pending_admin) v
          s (λ e. cc) i;
    total =
        h.get-set_ne (persistent_slot (contract_version (vkey x n))) (instance_slot event_seq) v s
          (λ e. cc) i;
    capacity =
        h.get-set_ne (persistent_slot (contract_version (vkey x n))) (instance_slot max_events) v s
          (λ e. cc) i;
    frozen =
        h.get-set_ne (persistent_slot (contract_version (vkey x n))) (instance_slot paused) v s
          (λ e. cc) i;
    contracts =
        fun_ext
          (λ j.
            h.get-set_ne (persistent_slot (contract_version (vkey x n)))
              (persistent_slot (contract j)) v s (λ e. cc))
          i;
    versions = fun_ext (λ j. fun_ext (λ k. get-set_version x n v s j k)) i;
    log =
        fun_ext
          (λ j.
            h.get-set_ne (persistent_slot (contract_version (vkey x n)))
              (persistent_slot (event_log j)) v s (λ e. cc))
          i;
    emitted = h.events-set (persistent_slot (contract_version (vkey x n))) v s i;
    code = h.wasm-set (persistent_slot (contract_version (vkey x n))) v s i;
  }
