-- ===== src/Explorer/View/Laws/Neutral.antt =====
-- Calls that leave every entry alone.
use octraban_contract.Common.{ℕ, ◌≡◌, fun_ext, some, [], ◌∷◌, ◌++◌}
use octraban_contract.Host.{Host, Lease, instance_slot, persistent_slot}
use octraban_contract.Explorer.Types.{
  DataKey, admin, pending_admin, contract, event_log, event_seq, max_events, paused,
  contract_version, Value, Published,
}
use octraban_contract.Explorer.View.{view}

module _ (h : Host Value Published) where
  pub view-extend_ttl :
      (l : Lease DataKey) (a b : ℕ) (s : h.State) → view h (h.extend_ttl l a b s) ≡ view h s
  view-extend_ttl l a b s = λ i. record {
    owner = h.get-extend_ttl (instance_slot admin) l a b s i;
    nominee = h.get-extend_ttl (instance_slot pending_admin) l a b s i;
    total = h.get-extend_ttl (instance_slot event_seq) l a b s i;
    capacity = h.get-extend_ttl (instance_slot max_events) l a b s i;
    frozen = h.get-extend_ttl (instance_slot paused) l a b s i;
    contracts = fun_ext (λ j. h.get-extend_ttl (persistent_slot (contract j)) l a b s) i;
    versions =
        fun_ext
          (λ j. fun_ext (λ k.
            h.get-extend_ttl
              (persistent_slot (contract_version (record { contract_id = j; abi_version = k }))) l a
              b s))
          i;
    log = fun_ext (λ j. h.get-extend_ttl (persistent_slot (event_log j)) l a b s) i;
    emitted = h.events-extend_ttl l a b s i;
    code = h.wasm-extend_ttl l a b s i;
  }

  pub view-publish :
      (e : Published) (s : h.State)
      → view h (h.publish e s) ≡ record (view h s) { emitted = (view h s).emitted ++ (e ∷ []) }
  view-publish e s = λ i. record {
    owner = h.get-publish (instance_slot admin) e s i;
    nominee = h.get-publish (instance_slot pending_admin) e s i;
    total = h.get-publish (instance_slot event_seq) e s i;
    capacity = h.get-publish (instance_slot max_events) e s i;
    frozen = h.get-publish (instance_slot paused) e s i;
    contracts = fun_ext (λ j. h.get-publish (persistent_slot (contract j)) e s) i;
    versions =
        fun_ext
          (λ j. fun_ext (λ k.
            h.get-publish
              (persistent_slot (contract_version (record { contract_id = j; abi_version = k }))) e
              s))
          i;
    log = fun_ext (λ j. h.get-publish (persistent_slot (event_log j)) e s) i;
    emitted = h.events-publish e s i;
    code = h.wasm-publish e s i;
  }

  pub view-update_wasm :
      (w : ℕ) (s : h.State) → view h (h.update_wasm w s) ≡ record (view h s) { code = some w }
  view-update_wasm w s = λ i. record {
    owner = h.get-update_wasm (instance_slot admin) w s i;
    nominee = h.get-update_wasm (instance_slot pending_admin) w s i;
    total = h.get-update_wasm (instance_slot event_seq) w s i;
    capacity = h.get-update_wasm (instance_slot max_events) w s i;
    frozen = h.get-update_wasm (instance_slot paused) w s i;
    contracts = fun_ext (λ j. h.get-update_wasm (persistent_slot (contract j)) w s) i;
    versions =
        fun_ext
          (λ j. fun_ext (λ k.
            h.get-update_wasm
              (persistent_slot (contract_version (record { contract_id = j; abi_version = k }))) w
              s))
          i;
    log = fun_ext (λ j. h.get-update_wasm (persistent_slot (event_log j)) w s) i;
    emitted = h.events-update_wasm w s i;
    code = h.wasm-update_wasm w s i;
  }
