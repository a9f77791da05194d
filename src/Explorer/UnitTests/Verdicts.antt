-- ===== src/Explorer/UnitTests/Verdicts.antt =====
-- How each unit test ends, over every host and at every ledger.
use octraban_contract.Common.{
  ℕ, ◌≡◌, ◌∙◌, Bool, true, false, not, ◌&&◌, List, [], ◌∷◌, ⊤, ap, ap₂, sym, refl, arith,
}
use octraban_contract.Host.{Outcome, done, panic, trap, diverge, Host}
use octraban_contract.Host.Observe.{observe}
use octraban_contract.Host.Script.{play, mock_all_auths}
use octraban_contract.Explorer.Types.{Error, Value, Published}
use octraban_contract.Explorer.View.{View, view}
use octraban_contract.Explorer.Spec
use octraban_contract.Explorer.Client.{ExplorerScript, contract, spec_contract, script-refines}
use octraban_contract.Explorer.UnitTests.Diagnostics.{test_update_contract_by_owner}
use octraban_contract.Explorer.UnitTests.Setup.{blank}
use octraban_contract.Explorer.UnitTests.Upgrades.{
  test_admin_can_upgrade, test_upgrade_emits_event, test_admin_can_upgrade_after_transfer,
}
use octraban_contract.Explorer.UnitTests.Suite.{
  Test, basic_tests, diagnostics_tests, pages_tests, versions_tests, handover_tests, upgrades_tests,
}

-- The outcome is the one that the mark asks for.
abbrev pub verdict : {S : Type 0} → Bool → Outcome Error S ⊤ → Bool
verdict should_panic (done _ _) = not should_panic
verdict should_panic (panic _) = should_panic
verdict should_panic trap = should_panic
verdict should_panic diverge = false

abbrev all_pass : {S : Type 0} → (ExplorerScript ⊤ → Outcome Error S ⊤) → List Test → Bool
all_pass run [] = true
all_pass run (t ∷ ts) = verdict t.should_panic (run t.script) && all_pass run ts

-- What the tests compute with.
bundle : Unit {0}
unfolding play Spec.init Spec.transfer_admin Spec.accept_admin Spec.cancel_admin_transfer
    Spec.set_paused Spec.upgrade Spec.is_paused Spec.get_contract Spec.get_contract_version
    Spec.get_latest_contract Spec.register_contract Spec.update_contract Spec.deregister_contract
    Spec.event_count Spec.storage_utilisation Spec.get_event Spec.get_events Spec.live
    Spec.set_max_events Spec.submit_event
bundle = tt

module _ (n : ℕ) where
  abbrev spec_run : ExplorerScript ⊤ → Outcome Error View ⊤
  spec_run m = play (spec_contract (mock_all_auths n)) m blank

  basic-pass : all_pass spec_run (basic_tests n) ≡ true
  unfolding bundle
  basic-pass = refl

  diagnostics-pass : all_pass spec_run (diagnostics_tests n) ≡ true
  unfolding bundle
  diagnostics-pass = ground arith

  pages-pass : all_pass spec_run (pages_tests n) ≡ true
  unfolding bundle
  pages-pass = refl

  versions-pass : all_pass spec_run (versions_tests n) ≡ true
  unfolding bundle
  versions-pass = ground arith

  handover-pass : all_pass spec_run (handover_tests n) ≡ true
  unfolding bundle
  handover-pass = refl

  upgrades-pass : all_pass spec_run (upgrades_tests n) ≡ true
  unfolding bundle
  upgrades-pass = refl

verdict-observe :
    {S T : Type 0} (f : S → T) (b : Bool) (o : Outcome Error S ⊤)
    → verdict b (observe f o) ≡ verdict b o
verdict-observe f b (done a s) = refl
verdict-observe f b (panic e) = refl
verdict-observe f b trap = refl
verdict-observe f b diverge = refl

module _ (h : Host Value Published) (n : ℕ) (s : h.State) (fresh : view h s ≡ blank) where
  abbrev host_run : ExplorerScript ⊤ → Outcome Error h.State ⊤
  host_run m = play (contract h (mock_all_auths n)) m s

  verdict-host_run :
      (b : Bool) (m : ExplorerScript ⊤) → verdict b (host_run m) ≡ verdict b (spec_run n m)
  verdict-host_run b m =
      sym (verdict-observe (view h) b (host_run m))
      ∙ ap (verdict b) (
          script-refines h (mock_all_auths n) m s
          ∙ ap (play (spec_contract (mock_all_auths n)) m) fresh)

  all_pass-host_run : (ts : List Test) → all_pass host_run ts ≡ all_pass (spec_run n) ts
  all_pass-host_run [] = refl
  all_pass-host_run (t ∷ ts) =
      ap₂ ◌&&◌ (verdict-host_run t.should_panic t.script) (all_pass-host_run ts)

  -- Over every host, on a contract that was never called, at every ledger: each of these unit tests
  -- ends as it is marked, by returning or by a panic.
  pub unit_tests_pass :
      (all_pass host_run (basic_tests n) ≡ true)
      × (all_pass host_run (diagnostics_tests n) ≡ true)
      × (all_pass host_run (pages_tests n) ≡ true)
      × (all_pass host_run (versions_tests n) ≡ true)
      × (all_pass host_run (handover_tests n) ≡ true)
      × (all_pass host_run (upgrades_tests n) ≡ true)
  unit_tests_pass = (
    all_pass-host_run (basic_tests n) ∙ basic-pass n,
    all_pass-host_run (diagnostics_tests n) ∙ diagnostics-pass n,
    all_pass-host_run (pages_tests n) ∙ pages-pass n,
    all_pass-host_run (versions_tests n) ∙ versions-pass n,
    all_pass-host_run (handover_tests n) ∙ handover-pass n,
    all_pass-host_run (upgrades_tests n) ∙ upgrades-pass n,
  )

  -- These tests are not marked `#[should_panic]`, but no code is uploaded for the hash that they
  -- upgrade to, and the host refuses it.
  pub upgrade_tests_fail :
      (verdict false (host_run test_admin_can_upgrade) ≡ false)
      × (verdict false (host_run test_upgrade_emits_event) ≡ false)
      × (verdict false (host_run test_admin_can_upgrade_after_transfer) ≡ false)
  unfolding bundle
  upgrade_tests_fail = (
    verdict-host_run false test_admin_can_upgrade,
    verdict-host_run false test_upgrade_emits_event,
    verdict-host_run false test_admin_can_upgrade_after_transfer,
  )

  -- This test is not marked `#[should_panic]`, but the contract lets only the admin register.
  pub test_update_contract_by_owner_fails :
      verdict false (host_run test_update_contract_by_owner) ≡ false
  unfolding bundle
  test_update_contract_by_owner_fails = verdict-host_run false test_update_contract_by_owner
