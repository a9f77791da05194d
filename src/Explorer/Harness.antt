-- ===== src/Explorer/Harness.antt =====
-- explorer/tests: the harnesses that range over inputs, as functions of them: kani.rs, proptest.rs
-- and fuzz.rs.
use octraban_contract.Common.{
  ℕ, ◌≡◌, ◌∙◌, true, ◌||◌, List, ltb, leb, ◌==◌, length, if◌then◌else◌, none, arith, ⊤, [],
}
use octraban_contract.Common.Bytes.{slice, from_le}
use octraban_contract.Host.{Host}
use octraban_contract.Host.Script.{
  ◌>>=◌, ◌>>◌, play, finish, client, run_call, assert, passes, mock_all_auths,
}
use octraban_contract.Explorer.Types.{Address, Value, Published, default_max_events}
use octraban_contract.Explorer.Contract.{Call}
use octraban_contract.Explorer.View.{View, view}
use octraban_contract.Explorer.Spec
use octraban_contract.Explorer.Client.{ExplorerScript, contract, spec_contract, script-passes}

module _ (admin : Address) where
  -- kani.rs; `kani::assume` leaves out the inputs that it does not hold for.
  unfoldable pub verify_event_seq_bounds : ℕ → ExplorerScript ⊤
  verify_event_seq_bounds max_events =
      if max_events == 0 || ltb 100000 max_events then finish tt else (do
        run_call (Call.init admin max_events)
        room ← client Call.storage_utilisation
        assert (leb room.0 room.1))

  -- proptest.rs.
  unfoldable pub test_init_invariants : ℕ → ExplorerScript ⊤
  test_init_invariants max_events = do
    run_call (Call.init admin max_events)
    room ← client Call.storage_utilisation
    (if max_events == 0
        then assert (room.1 == default_max_events)
        else assert (room.1 == max_events))

  -- fuzz.rs; the first 32 bytes are the id of a contract.
  unfoldable pub fuzz_submit_event : List ℕ → ExplorerScript ⊤
  fuzz_submit_event bytes = if ltb (length bytes) 32 then finish tt else (do
    run_call (Call.init admin 5000)
    run_call (
        Call.submit_event admin record {
          contract_id = from_le (slice bytes 0 32);
          function = "swap";
          ledger = 100;
          description = "Fuzzed Event";
          raw_topics = [];
          raw_data = [];
        }))

module _ (admin : Address) (n : ℕ) (v : View) (unopened : v.owner ≡ none)
    (running : v.frozen ≡ none) where
  bounds-passes :
      (m : ℕ)
      → passes (play (spec_contract (mock_all_auths n)) (verify_event_seq_bounds admin m) v) ≡ true
  unfolding play verify_event_seq_bounds Spec.init Spec.storage_utilisation
  bounds-passes m = ground arith

  init-passes :
      (m : ℕ)
      → passes (play (spec_contract (mock_all_auths n)) (test_init_invariants admin m) v) ≡ true
  unfolding play test_init_invariants Spec.init Spec.storage_utilisation
  init-passes m = ground arith

  submit-passes :
      (bytes : List ℕ)
      → passes (play (spec_contract (mock_all_auths n)) (fuzz_submit_event admin bytes) v) ≡ true
  unfolding play fuzz_submit_event Spec.init Spec.submit_event
  submit-passes bytes = ground arith

module _ (h : Host Value Published) (admin : Address) (n : ℕ) (s : h.State)
    (unopened : (view h s).owner ≡ none) (running : (view h s).frozen ≡ none) where
  -- On a contract that was never called, for every capacity and all bytes: no assertion of the
  -- harnesses fails, and no call of theirs ends in an error.
  pub harnesses_pass :
      (m : ℕ) (bytes : List ℕ)
      → (passes (play (contract h (mock_all_auths n)) (verify_event_seq_bounds admin m) s) ≡ true)
        × (passes (play (contract h (mock_all_auths n)) (test_init_invariants admin m) s) ≡ true)
        × (passes (play (contract h (mock_all_auths n)) (fuzz_submit_event admin bytes) s) ≡ true)
  harnesses_pass m bytes = (
    script-passes h (mock_all_auths n) (verify_event_seq_bounds admin m) s
        ∙ bounds-passes admin n (view h s) unopened running m,
    script-passes h (mock_all_auths n) (test_init_invariants admin m) s
        ∙ init-passes admin n (view h s) unopened running m,
    script-passes h (mock_all_auths n) (fuzz_submit_event admin bytes) s
        ∙ submit-passes admin n (view h s) unopened running bytes,
  )
