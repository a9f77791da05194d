-- ===== src/Explorer/Tests/EventWitnesses.antt =====
-- The theorems on failures, published events, leases and counters at concrete inputs.
use octraban_contract.Common.{◌≡◌, ◌≢◌, true, false, none, some, List, [], ◌∷◌, ◌++◌, refl, arith}
use octraban_contract.Host.{Invocation}
use octraban_contract.Explorer.Contract.{Call, invoke, run}
use octraban_contract.Explorer.View.{view}
use octraban_contract.Explorer.Failures.{explained, unready, explained-invoke}
use octraban_contract.Explorer.Failures.Traps.{run_traps}
use octraban_contract.Explorer.Replay.{known_of, replay}
use octraban_contract.Explorer.Replay.Run.{replayed_contract}
use octraban_contract.Explorer.Leases.Promised.{AreKept, promised, invoke-AreKept}
use octraban_contract.Explorer.Ring
use octraban_contract.Explorer.Tests.Model.{host, fresh}
use octraban_contract.Explorer.Tests.Runs.{
  ctx, input, meta, opened, three, registered_state, updated_state, program,
}
use octraban_contract.Explorer.Tests.RingWitnesses.{fresh-IsFresh}

-- A deregistration by somebody who is neither the admin nor the registrant.
explained-invoke_example :
    explained ctx
      (Call.deregister_contract 6 7)
      (view host updated_state)
      (invoke host ctx (Call.deregister_contract 6 7) updated_state)
    ≡ true
explained-invoke_example = explained-invoke host ctx (Call.deregister_contract 6 7) updated_state

-- Nobody has authorised the invocation.
abbrev unsigned : Invocation
unsigned = record { authorised = λ a. false; sequence = 101; uploaded = λ w. true }

run_traps_example :
    unready unsigned
      (Call.submit_event 1 (input 13))
      (view host (run host ((ctx, Call.init 1 2) ∷ three) fresh))
    ≡ true
unfolding program
run_traps_example =
    run_traps host ((ctx, Call.init 1 2) ∷ three) unsigned (Call.submit_event 1 (input 13)) fresh
      fresh-IsFresh (omega arith) refl

owned : (view host opened).owner ≢ none
unfolding program
owned e = cc

-- Contract 7 registered and updated, three submissions to a ring of two, and a handover.
abbrev busy : List (Invocation × Call)
busy =
    ((ctx, Call.register_contract 1 7 (meta 0)) ∷ (ctx, Call.update_contract 5 7 (meta 1)) ∷ three)
    ++ ((ctx, Call.transfer_admin 1 4) ∷ (ctx, Call.accept_admin 4) ∷ (ctx, Call.pause 4) ∷ [])

replayed_contract_example :
    replay 7 (host.events (run host busy opened)) (known_of 7 (view host opened)) ≡ record {
      owner = some 4;
      nominee = none;
      frozen = true;
      code = none;
      next = 3;
      version = some 1;
    }
unfolding program
replayed_contract_example = replayed_contract host busy opened 7 owned refl

invoke-AreKept_example :
    AreKept host registered_state
      (promised (Call.register_contract 1 7 (meta 0)) (view host opened))
unfolding program
invoke-AreKept_example =
    invoke-AreKept host ctx (Call.register_contract 1 7 (meta 0)) opened registered_state refl

abbrev counted_state : host.State
counted_state = run host ((ctx, Call.init 1 2) ∷ busy) fresh
