-- ===== src/Explorer/Tests/CallWitnesses.antt =====
-- The theorems on the calls as a whole at concrete inputs.
use octraban_contract.Common.{
  ℕ, ◌≡◌, ◌≢◌, ◌⊎◌, ◌==◌, true, not, Option, none, some, List, [], ◌∷◌, refl, arith,
}
use octraban_contract.Host.{done, Invocation}
use octraban_contract.Host.Observe.{observe}
use octraban_contract.Explorer.Types.{ContractMeta}
use octraban_contract.Explorer.Admin
use octraban_contract.Explorer.Ring
use octraban_contract.Explorer.Contract.{Call, run, commit}
use octraban_contract.Explorer.View.{view}
use octraban_contract.Explorer.Tests.Model.{host}
use octraban_contract.Explorer.Tests.Runs.{
  ctx, submit, meta, opened, registered_state, updated_state, paused_state, program,
}
use octraban_contract.Explorer.Client.{perform, specified, perform-refines}
use octraban_contract.Explorer.Safety.Authority.{invoke-IsPermitted}
use octraban_contract.Explorer.Safety.Handover.{
  IsHeldByOther, invoke-Succession, never_signs_never_admin,
}
use octraban_contract.Explorer.Safety.Pausing.{
  IsFrozenAt, paused_keeps, succeeds, set_max_events-pause,
}

perform-refines_example :
    observe (view host) (perform host ctx (Call.get_latest_contract 7) updated_state)
    ≡ specified ctx (Call.get_latest_contract 7) (view host updated_state)
perform-refines_example = perform-refines host ctx (Call.get_latest_contract 7) updated_state

-- Everybody but 9 has authorised the invocation.
abbrev without_nine : Invocation
without_nine = record { authorised = λ a. not (a == 9); sequence = 101; uploaded = λ w. true }

abbrev nominated_state : host.State
nominated_state = commit (Admin.transfer_admin host ctx 1 4 opened) opened

abbrev accepted_state : host.State
accepted_state = commit (Admin.accept_admin host ctx 4 nominated_state) nominated_state

invoke-IsPermitted_example :
    (true ≡ true)
    × ((m : ContractMeta) × ((view host registered_state).contracts 7 ≡ some m)
        × ((5 ≡ m.registered_by) ⊎ ((view host registered_state).owner ≡ some 5)))
unfolding program
invoke-IsPermitted_example =
    invoke-IsPermitted host ctx (Call.update_contract 5 7 (meta 1)) registered_state updated_state
      refl

invoke-Succession_example :
    (true ≡ true)
    × ((view host nominated_state).nominee ≡ some 4)
    × ((view host accepted_state).owner ≡ some 4)
    × ((view host accepted_state).nominee ≡ none)
unfolding program
invoke-Succession_example =
    invoke-Succession host ctx (Call.accept_admin 4) nominated_state accepted_state refl

some_ne_none : {a : ℕ} → some a ≢ none
some_ne_none e = cc

some_one_ne_nine : ◌≢◌ {A = Option ℕ} (some 1) (some 9)
some_one_ne_nine e = ground arith

abbrev siege : List (Invocation × Call)
siege = (without_nine, Call.transfer_admin 1 9) ∷ (without_nine, Call.accept_admin 9) ∷ []

never_signs_never_admin_example : IsHeldByOther 9 (view host (run host siege opened))
unfolding program
never_signs_never_admin_example =
    never_signs_never_admin host 9 siege opened refl (some_ne_none, some_one_ne_nine)

abbrev resized_state : host.State
resized_state = commit (Ring.set_max_events host ctx 1 2000 paused_state) paused_state

abbrev quiet : List (Invocation × Call)
quiet =
    submit 10 ∷ (ctx, Call.set_max_events 1 2000) ∷ (ctx, Call.register_contract 1 7 (meta 0)) ∷ []

paused_keeps_example : IsFrozenAt (view host paused_state) (view host (run host quiet paused_state))
unfolding program
paused_keeps_example = paused_keeps host quiet paused_state refl refl some_ne_none

set_max_events-pause_example :
    (succeeds (Ring.set_max_events host ctx 1 2000 paused_state) ≡ true)
    × (observe (view host) (Ring.storage_utilisation host resized_state)
        ≡ done (0, 2000) (view host resized_state))
unfolding program
set_max_events-pause_example = set_max_events-pause host ctx ctx 1 1 2000 opened paused_state refl
