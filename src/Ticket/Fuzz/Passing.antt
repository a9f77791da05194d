-- ===== src/Ticket/Fuzz/Passing.antt =====
-- The fuzz targets on every input.
use octraban_contract.Common.{ℕ, ◌≡◌, ◌≢◌, ◌∙◌, ◌||◌, true, none, List, length, ltb, is_some, arith}
use octraban_contract.Common.Bytes.{i128_at, checked_abs}
use octraban_contract.Host.{Host}
use octraban_contract.Host.Script.{play, passes, mock_all_auths}
use octraban_contract.Ticket.Types.{Value, Published}
use octraban_contract.Ticket.View.{View, view}
use octraban_contract.Ticket.Spec
use octraban_contract.Ticket.Client.{contract, spec_contract, script-passes}
use octraban_contract.Ticket.Fuzz.Targets.{
  Cast, fuzz_mint, fuzz_transfer, fuzz_verify, fuzz_full_lifecycle,
}

module _ (cast : Cast) (n : ℕ) (v : View) (unopened : v.organizer ≡ none) where
  transfer-passes :
      (bytes : List ℕ)
      → passes (play (spec_contract (mock_all_auths n)) (fuzz_transfer cast bytes) v) ≡ true
  unfolding play fuzz_transfer Spec.initialize Spec.mint_ticket Spec.transfer_ticket
  transfer-passes bytes = ground arith

  verify-passes :
      (bytes : List ℕ)
      → cast.impostor ≢ cast.organizer
      → passes (play (spec_contract (mock_all_auths n)) (fuzz_verify cast bytes) v) ≡ true
  unfolding play fuzz_verify Spec.initialize Spec.mint_ticket Spec.verify_ticket Spec.get_ticket
  verify-passes bytes other = ground arith

  mint-passes :
      (bytes : List ℕ)
      → passes (play (spec_contract (mock_all_auths n)) (fuzz_mint cast bytes) v)
        ≡ (ltb (length bytes) 25 || is_some (checked_abs (i128_at bytes 8)))
  unfolding play fuzz_mint Spec.initialize Spec.mint_ticket Spec.tickets_sold
  mint-passes bytes = ground arith

  lifecycle-passes :
      (bytes : List ℕ)
      → passes (play (spec_contract (mock_all_auths n)) (fuzz_full_lifecycle cast bytes) v)
        ≡ (ltb (length bytes) 17 || is_some (checked_abs (i128_at bytes 1)))
  unfolding play fuzz_full_lifecycle Spec.initialize Spec.mint_ticket Spec.verify_ticket
      Spec.transfer_ticket Spec.get_ticket
  lifecycle-passes bytes = ground arith

module _ (h : Host Value Published) (cast : Cast) (n : ℕ) (bytes : List ℕ) (s : h.State)
    (unopened : (view h s).organizer ≡ none) (other : cast.impostor ≢ cast.organizer) where
  -- On a contract that was not initialised, where the impostor is not the organizer, for all bytes:
  -- `fuzz_transfer` and `fuzz_verify` pass, none of their assertions fails and no call that they
  -- expect to succeed ends in an error; `fuzz_mint` and `fuzz_full_lifecycle` pass except exactly on
  -- inputs long enough to be read whose price is `i128::MIN`, where their own `abs` overflows.
  pub fuzz_targets_pass :
      (passes (play (contract h (mock_all_auths n)) (fuzz_transfer cast bytes) s) ≡ true)
      × (passes (play (contract h (mock_all_auths n)) (fuzz_verify cast bytes) s) ≡ true)
      × (passes (play (contract h (mock_all_auths n)) (fuzz_mint cast bytes) s)
          ≡ (ltb (length bytes) 25 || is_some (checked_abs (i128_at bytes 8))))
      × (passes (play (contract h (mock_all_auths n)) (fuzz_full_lifecycle cast bytes) s)
          ≡ (ltb (length bytes) 17 || is_some (checked_abs (i128_at bytes 1))))
  fuzz_targets_pass =
      let v = view h s in
      (
        script-passes h (mock_all_auths n) (fuzz_transfer cast bytes) s
            ∙ transfer-passes cast n v unopened bytes,
        script-passes h (mock_all_auths n) (fuzz_verify cast bytes) s
            ∙ verify-passes cast n v unopened bytes other,
        script-passes h (mock_all_auths n) (fuzz_mint cast bytes) s
            ∙ mint-passes cast n v unopened bytes,
        script-passes h (mock_all_auths n) (fuzz_full_lifecycle cast bytes) s
            ∙ lifecycle-passes cast n v unopened bytes,
      )
