-- ===== src/Explorer/Tests/RingWitnesses.antt =====
-- The theorems on the ring buffer at concrete inputs.
use octraban_contract.Common.{ℕ, List, ◌≢◌, ◌≡◌, some, [], ◌∷◌, refl, arith, get_elem?, take}
use octraban_contract.Host.{done, panic, Invocation}
use octraban_contract.Host.Observe.{observe}
use octraban_contract.Explorer.Types.{not_found}
use octraban_contract.Explorer.Admin
use octraban_contract.Explorer.Ring
use octraban_contract.Explorer.Contract.{Call, commit}
use octraban_contract.Explorer.View.{view}
use octraban_contract.Explorer.Spec
use octraban_contract.Explorer.History.{recorded}
use octraban_contract.Explorer.History.Run.{IsFresh}
use octraban_contract.Explorer.Tests.Model.{host, fresh}
use octraban_contract.Explorer.Tests.Runs.{
  ctx, input, submit, opened, three, three_state, grown_state, program,
}
use octraban_contract.Explorer.History.Run.{get_event_sound}
use octraban_contract.Explorer.History.Live.{IsLive}
use octraban_contract.Explorer.History.Exact.{
  init-IsLive, run-IsLive, get_event_exact, get_events_exact, event_count_exact,
}
use octraban_contract.Explorer.History.Interleaved.{read_along, recorded_along, read_along_sound}
use octraban_contract.Explorer.History.Complete.{Seen, cursor_along, read_along_complete}
use octraban_contract.Explorer.History.Agreement.{found, collect, Ascends, get_events-get_event}
use octraban_contract.Explorer.History.Pages.{next_cursor, walk, walk_exact}
use octraban_contract.Explorer.History.Submit.{get_event-submit_event}
use octraban_contract.Explorer.History.Resize.{get_event-set_max_events, growth_hides}

pub fresh-IsFresh : IsFresh (view host fresh)
fresh-IsFresh = record {
  owner = refl;
  nominee = refl;
  total = refl;
  capacity = refl;
  contracts = λ id. refl;
  versions = λ id n. refl;
  log = λ i. refl;
}

opened-IsLive : IsLive 2 [] (view host opened)
unfolding Admin.init
opened-IsLive = init-IsLive host 1 2 fresh opened fresh-IsFresh refl

three-IsLive : IsLive 2 (recorded host three opened []) (view host three_state)
unfolding program
three-IsLive = run-IsLive host three 2 opened [] refl opened-IsLive

get_event_exact_example :
    observe (view host) (Ring.get_event host 1 three_state)
    ≡ done (Spec.decoded 1 (input 11)) (view host three_state)
unfolding program
get_event_exact_example = get_event_exact host 2 [] opened opened-IsLive three refl 1

get_events_exact_example :
    observe (view host) (Ring.get_events host 0 10 three_state)
    ≡ done (Spec.decoded 1 (input 11) ∷ Spec.decoded 2 (input 12) ∷ []) (view host three_state)
unfolding program
get_events_exact_example = get_events_exact host 2 [] opened opened-IsLive three refl 0 10

event_count_exact_example :
    observe (view host) (Ring.event_count host three_state) ≡ done 2 (view host three_state)
unfolding program
event_count_exact_example = event_count_exact host 2 [] opened opened-IsLive three refl

get_event_sound_example :
    get_elem? (recorded host ((ctx, Call.init 1 2) ∷ three) fresh []) 2
    ≡ some (Spec.decoded 2 (input 12))
unfolding program
get_event_sound_example =
    get_event_sound host ((ctx, Call.init 1 2) ∷ three) fresh
      (commit (Ring.get_event host 2 three_state) three_state) 2 fresh-IsFresh refl

get_event-set_max_events_example :
    observe (view host) (Ring.get_event host 1 grown_state)
    ≡ done (Spec.decoded 1 (input 11)) (view host grown_state)
unfolding program
get_event-set_max_events_example =
    get_event-set_max_events host ctx 2 1000 1 (recorded host three opened []) three_state
      grown_state 1 three-IsLive refl

growth_hides_example :
    (observe (view host) (Ring.get_event host 2 three_state)
      ≡ done (Spec.decoded 2 (input 12)) (view host three_state))
    × (observe (view host) (Ring.get_event host 2 grown_state) ≡ panic not_found)
unfolding program
growth_hides_example =
    growth_hides host ctx 2 1000 1 (recorded host three opened []) three_state grown_state 2
      (Spec.decoded 2 (input 12)) three-IsLive refl refl (omega arith) (omega arith) (omega arith)

one_ne_zero : ◌≢◌ {A = ℕ} 1 0
one_ne_zero = omega arith

two_ne_zero : ◌≢◌ {A = ℕ} 2 0
two_ne_zero = omega arith

-- Pages of one event each.
walk_exact_example :
    observe (view host) (walk (Ring.get_events host) 4 1 0 three_state)
    ≡ done (Spec.decoded 1 (input 11) ∷ Spec.decoded 2 (input 12) ∷ []) (view host three_state)
unfolding program
walk_exact_example =
    walk_exact host 2 [] opened three 1 4 opened-IsLive refl one_ne_zero (omega arith)

get_event-submit_event_example :
    (s' : host.State) × (Ring.submit_event host ctx 1 (input 13) three_state ≡ done tt s')
    × (observe (view host) (Ring.get_event host 3 s')
        ≡ done (Spec.decoded 3 (input 13)) (view host s'))
unfolding program
get_event-submit_event_example =
    get_event-submit_event host ctx 1 (input 13) three_state refl refl refl refl two_ne_zero
      (omega arith)

get_events-get_event_example :
    observe (view host) (Ring.get_events host 0 10 grown_state)
    ≡ done
        (take 10 (collect (λ n. found (Ring.get_event host n grown_state)) 0 3))
        (view host grown_state)
unfolding program collect
get_events-get_event_example =
    get_events-get_event host grown_state 0 10 (omega arith) (omega arith)

-- Two submissions before the first page, a third, which evicts the first event, before the second.
abbrev rounds : List (List (Invocation × Call))
rounds = (submit 10 ∷ submit 11 ∷ []) ∷ (submit 12 ∷ []) ∷ []

read_along_sound_example :
    Ascends
      (recorded_along host 1 ((((ctx, Call.init 1 2) ∷ []) ∷ rounds)) 0 fresh [])
      0
      (Spec.decoded 0 (input 10) ∷ Spec.decoded 1 (input 11) ∷ [])
unfolding program read_along recorded_along next_cursor
read_along_sound_example =
    read_along_sound host 1 (((ctx, Call.init 1 2) ∷ []) ∷ rounds) 0 fresh fresh-IsFresh

read_along_complete_example :
    Seen (Spec.decoded 1 (input 11)) (Spec.decoded 0 (input 10) ∷ Spec.decoded 1 (input 11) ∷ [])
unfolding program read_along recorded_along cursor_along next_cursor
read_along_complete_example =
    read_along_complete host 1 2 rounds 0 opened [] 1 (Spec.decoded 1 (input 11)) opened-IsLive refl
      (omega arith) (omega arith) (omega arith) refl (omega arith)
