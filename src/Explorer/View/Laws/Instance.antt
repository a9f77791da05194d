-- ===== src/Explorer/View/Laws/Instance.antt =====
-- Writes to the instance storage.
use octraban_contract.Common.{ℕ, ◌≡◌, fun_ext, some, none, Bool}
use octraban_contract.Host.{Host, instance_slot, persistent_slot}
use octraban_contract.Explorer.Types.{
  Address, admin, pending_admin, contract, event_log, event_seq, max_events, paused,
  contract_version, Value, Published,
}
use octraban_contract.Explorer.View.{view}

module _ (h : Host Value Published) where
  pub view-set_admin :
      (x : Address) (s : h.State)
      → view h (h.set (instance_slot admin) x s) ≡ record (view h s) { owner = some x }
  view-set_admin x s = λ i. record {
    owner = h.get-set_self (instance_slot admin) x s i;
    nominee = h.get-set_ne (instance_slot admin) (instance_slot pending_admin) x s (λ e. cc) i;
    total = h.get-set_ne (instance_slot admin) (instance_slot event_seq) x s (λ e. cc) i;
    capacity = h.get-set_ne (instance_slot admin) (instance_slot max_events) x s (λ e. cc) i;
    frozen = h.get-set_ne (instance_slot admin) (instance_slot paused) x s (λ e. cc) i;
    contracts =
        fun_ext
          (λ j. h.get-set_ne (instance_slot admin) (persistent_slot (contract j)) x s (λ e. cc)) i;
    versions =
        fun_ext
          (λ j. fun_ext (λ k.
            h.get-set_ne (instance_slot admin)
              (persistent_slot (contract_version (record { contract_id = j; abi_version = k }))) x s
              (λ e. cc)))
          i;
    log =
        fun_ext
          (λ j. h.get-set_ne (instance_slot admin) (persistent_slot (event_log j)) x s (λ e. cc)) i;
    emitted = h.events-set (instance_slot admin) x s i;
    code = h.wasm-set (instance_slot admin) x s i;
  }

  pub view-set_pending_admin :
      (x : Address) (s : h.State)
      → view h (h.set (instance_slot pending_admin) x s) ≡ record (view h s) { nominee = some x }
  view-set_pending_admin x s = λ i. record {
    owner = h.get-set_ne (instance_slot pending_admin) (instance_slot admin) x s (λ e. cc) i;
    nominee = h.get-set_self (instance_slot pending_admin) x s i;
    total = h.get-set_ne (instance_slot pending_admin) (instance_slot event_seq) x s (λ e. cc) i;
    capacity =
        h.get-set_ne (instance_slot pending_admin) (instance_slot max_events) x s (λ e. cc) i;
    frozen = h.get-set_ne (instance_slot pending_admin) (instance_slot paused) x s (λ e. cc) i;
    contracts =
        fun_ext
          (λ j.
            h.get-set_ne (instance_slot pending_admin) (persistent_slot (contract j)) x s (λ e. cc))
          i;
    versions =
        fun_ext
          (λ j. fun_ext (λ k.
            h.get-set_ne (instance_slot pending_admin)
              (persistent_slot (contract_version (record { contract_id = j; abi_version = k }))) x s
              (λ e. cc)))
          i;
    log =
        fun_ext
          (λ j.
            h.get-set_ne (instance_slot pending_admin) (persistent_slot (event_log j)) x s
              (λ e. cc))
          i;
    emitted = h.events-set (instance_slot pending_admin) x s i;
    code = h.wasm-set (instance_slot pending_admin) x s i;
  }

  pub view-set_event_seq :
      (x : ℕ) (s : h.State)
      → view h (h.set (instance_slot event_seq) x s) ≡ record (view h s) { total = some x }
  view-set_event_seq x s = λ i. record {
    owner = h.get-set_ne (instance_slot event_seq) (instance_slot admin) x s (λ e. cc) i;
    nominee = h.get-set_ne (instance_slot event_seq) (instance_slot pending_admin) x s (λ e. cc) i;
    total = h.get-set_self (instance_slot event_seq) x s i;
    capacity = h.get-set_ne (instance_slot event_seq) (instance_slot max_events) x s (λ e. cc) i;
    frozen = h.get-set_ne (instance_slot event_seq) (instance_slot paused) x s (λ e. cc) i;
    contracts =
        fun_ext
          (λ j. h.get-set_ne (instance_slot event_seq) (persistent_slot (contract j)) x s (λ e. cc))
          i;
    versions =
        fun_ext
          (λ j. fun_ext (λ k.
            h.get-set_ne (instance_slot event_seq)
              (persistent_slot (contract_version (record { contract_id = j; abi_version = k }))) x s
              (λ e. cc)))
          i;
    log =
        fun_ext
          (λ j.
            h.get-set_ne (instance_slot event_seq) (persistent_slot (event_log j)) x s (λ e. cc))
          i;
    emitted = h.events-set (instance_slot event_seq) x s i;
    code = h.wasm-set (instance_slot event_seq) x s i;
  }

  pub view-set_max_events :
      (x : ℕ) (s : h.State)
      → view h (h.set (instance_slot max_events) x s) ≡ record (view h s) { capacity = some x }
  view-set_max_events x s = λ i. record {
    owner = h.get-set_ne (instance_slot max_events) (instance_slot admin) x s (λ e. cc) i;
    nominee = h.get-set_ne (instance_slot max_events) (instance_slot pending_admin) x s (λ e. cc) i;
    total = h.get-set_ne (instance_slot max_events) (instance_slot event_seq) x s (λ e. cc) i;
    capacity = h.get-set_self (instance_slot max_events) x s i;
    frozen = h.get-set_ne (instance_slot max_events) (instance_slot paused) x s (λ e. cc) i;
    contracts =
        fun_ext
          (λ j.
            h.get-set_ne (instance_slot max_events) (persistent_slot (contract j)) x s (λ e. cc))
          i;
    versions =
        fun_ext
          (λ j. fun_ext (λ k.
            h.get-set_ne (instance_slot max_events)
              (persistent_slot (contract_version (record { contract_id = j; abi_version = k }))) x s
              (λ e. cc)))
          i;
    log =
        fun_ext
          (λ j.
            h.get-set_ne (instance_slot max_events) (persistent_slot (event_log j)) x s (λ e. cc))
          i;
    emitted = h.events-set (instance_slot max_events) x s i;
    code = h.wasm-set (instance_slot max_events) x s i;
  }

  pub view-set_paused :
      (x : Bool) (s : h.State)
      → view h (h.set (instance_slot paused) x s) ≡ record (view h s) { frozen = some x }
  view-set_paused x s = λ i. record {
    owner = h.get-set_ne (instance_slot paused) (instance_slot admin) x s (λ e. cc) i;
    nominee = h.get-set_ne (instance_slot paused) (instance_slot pending_admin) x s (λ e. cc) i;
    total = h.get-set_ne (instance_slot paused) (instance_slot event_seq) x s (λ e. cc) i;
    capacity = h.get-set_ne (instance_slot paused) (instance_slot max_events) x s (λ e. cc) i;
    frozen = h.get-set_self (instance_slot paused) x s i;
    contracts =
        fun_ext
          (λ j. h.get-set_ne (instance_slot paused) (persistent_slot (contract j)) x s (λ e. cc)) i;
    versions =
        fun_ext
          (λ j. fun_ext (λ k.
            h.get-set_ne (instance_slot paused)
              (persistent_slot (contract_version (record { contract_id = j; abi_version = k }))) x s
              (λ e. cc)))
          i;
    log =
        fun_ext
          (λ j. h.get-set_ne (instance_slot paused) (persistent_slot (event_log j)) x s (λ e. cc))
          i;
    emitted = h.events-set (instance_slot paused) x s i;
    code = h.wasm-set (instance_slot paused) x s i;
  }

  pub view-remove_pending_admin :
      (s : h.State)
      → view h (h.remove (instance_slot pending_admin) s) ≡ record (view h s) { nominee = none }
  view-remove_pending_admin s = λ i. record {
    owner = h.get-remove_ne (instance_slot pending_admin) (instance_slot admin) s (λ e. cc) i;
    nominee = h.get-remove_self (instance_slot pending_admin) s i;
    total = h.get-remove_ne (instance_slot pending_admin) (instance_slot event_seq) s (λ e. cc) i;
    capacity =
        h.get-remove_ne (instance_slot pending_admin) (instance_slot max_events) s (λ e. cc) i;
    frozen = h.get-remove_ne (instance_slot pending_admin) (instance_slot paused) s (λ e. cc) i;
    contracts =
        fun_ext
          (λ j.
            h.get-remove_ne (instance_slot pending_admin) (persistent_slot (contract j)) s
              (λ e. cc))
          i;
    versions =
        fun_ext
          (λ j. fun_ext (λ k.
            h.get-remove_ne (instance_slot pending_admin)
              (persistent_slot (contract_version (record { contract_id = j; abi_version = k }))) s
              (λ e. cc)))
          i;
    log =
        fun_ext
          (λ j.
            h.get-remove_ne (instance_slot pending_admin) (persistent_slot (event_log j)) s
              (λ e. cc))
          i;
    emitted = h.events-remove (instance_slot pending_admin) s i;
    code = h.wasm-remove (instance_slot pending_admin) s i;
  }
