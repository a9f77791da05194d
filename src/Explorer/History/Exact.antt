-- ===== src/Explorer/History/Exact.antt =====
-- The ring buffer as its callers see it, over every host and after any sequence of invocations that
-- does not change the capacity.
use octraban_contract.Common.{
  ℕ, ◌-◌, ◌≡◌, ◌∙◌, min, max, Bool, true, false, not, none, some, List, [], ◌∷◌, length, take, drop,
  arith, refl, ◌==◌, if◌then◌else◌,
}
use octraban_contract.Host.{Outcome, done, panic, trap, diverge, Host, Invocation}
use octraban_contract.Host.Observe.{observe, observe-done}
use octraban_contract.Explorer.Types.{
  Error, not_found, invalid_input, default_max_events, max_page_size, DecodedEvent, Value,
  Published,
}
use octraban_contract.Explorer.Admin
use octraban_contract.Explorer.Ring
use octraban_contract.Explorer.Contract.{Call, invoke, commit, run}
use octraban_contract.Explorer.View.{View, view}
use octraban_contract.Explorer.Refine.{
  init-refines, invoke-done, every, get_event-refines, get_events-refines, event_count-refines,
}
use octraban_contract.Explorer.History.{archive_if, recorded}
use octraban_contract.Explorer.History.Frame.{Opened, init-Opened}
use octraban_contract.Explorer.History.Live.{IsLive, resizes, invoke-IsLive}
use octraban_contract.Explorer.History.Run.{IsFresh}
use octraban_contract.Explorer.History.Window.{
  window, latest, get_event-window, get_events-latest, event_count-latest,
}

-- No call of the sequence is `set_max_events`.
abbrev pub no_resize : List (Invocation × Call) → Bool
no_resize = every (λ _ c. not (resizes c))

Opened-IsLive :
    (a n : ℕ) (v v' : View)
    → ((i : ℕ) → v.log i ≡ none)
    → Opened a n v v'
    → IsLive (if n == 0 then default_max_events else n) [] v'
Opened-IsLive a n v v' empty opened = record {
  sound = record {
    counted = ground arith;
    roomy = ground arith;
    stored = λ i e found. ground (arith, empty i);
    numbered = λ k e found. cc;
    unopened = λ _. refl;
  };
  opened = ground arith;
  capacity = ground arith;
  placed = λ i e found. ground (arith, empty i);
  present = λ k e found near. cc;
}

module _ (h : Host Value Published) where
  step-IsLive :
      (ctx : Invocation) (c : Call) (m : ℕ) (s : h.State) (hist : List DecodedEvent)
      (o : Outcome Error h.State (Unit {0}))
      → invoke h ctx c s ≡ o
      → resizes c ≡ false
      → IsLive m hist (view h s)
      → IsLive m (archive_if o c hist) (view h (commit o s))
  step-IsLive ctx c m s hist (done tt s') e t live =
      invoke-IsLive ctx c m hist (view h s) (view h s') t (invoke-done h ctx c s s' e) live
  step-IsLive ctx c m s hist (panic x) e t live = live
  step-IsLive ctx c m s hist trap e t live = live
  step-IsLive ctx c m s hist diverge e t live = live

  pub run-IsLive :
      (cs : List (Invocation × Call)) (m : ℕ) (s : h.State) (hist : List DecodedEvent)
      → no_resize cs ≡ true
      → IsLive m hist (view h s)
      → IsLive m (recorded h cs s hist) (view h (run h cs s))
  unfolding run recorded
  run-IsLive [] m s hist t live = live
  run-IsLive ((ctx, c) ∷ cs) m s hist t live =
      run-IsLive cs m _ _ (ground arith)
        (step-IsLive ctx c m s hist (invoke h ctx c s) refl (ground arith) live)

  -- A successful `init` of a new contract opens an empty ring of the capacity asked for, 50,000 if
  -- that is zero.
  pub init-IsLive :
      (a n : ℕ) (s s' : h.State) {r : Unit {0}}
      → IsFresh (view h s)
      → Admin.init h a n s ≡ done r s'
      → IsLive (if n == 0 then default_max_events else n) [] (view h s')
  init-IsLive a n s s' fresh e = Opened-IsLive a n (view h s) (view h s') fresh.log (
      init-Opened a n (view h s) (view h s')
        (observe-done (view h) (Admin.init h a n s) _ (init-refines h a n s) e))

module _ (h : Host Value Published) (m : ℕ) (hist : List DecodedEvent) (s : h.State)
    (live : IsLive m hist (view h s)) (cs : List (Invocation × Call))
    (kept : no_resize cs ≡ true) where
  -- In a ring of capacity `m` that holds the latest `m` events of a history, after any sequence of
  -- invocations without `set_max_events`: `get_event` returns the event submitted under its number
  -- if that is among the latest `m` submitted, and ends with `NotFound` for every other number.
  pub get_event_exact :
      (n : ℕ)
      → observe (view h) (Ring.get_event h n (run h cs s))
        ≡ (elim (window m (recorded h cs s hist) n) [
          | none ↦ panic not_found
          | some e ↦ done e (view h (run h cs s))
        ])
  get_event_exact n =
      get_event-refines h n (run h cs s)
      ∙ get_event-window m _ (view h (run h cs s)) (run-IsLive h cs m s hist kept live) n

  -- In a ring of capacity `m` that holds the latest `m` events of a history, after any sequence of
  -- invocations without `set_max_events`: `get_events` with a limit of 0 ends with `InvalidInput`,
  -- and with any other limit it returns, in order and without a gap, the submitted events from the cursor or
  -- from the oldest retained one on, as many as the limit, 500 and the history allow.
  pub get_events_exact :
      (cursor limit : ℕ)
      → observe (view h) (Ring.get_events h cursor limit (run h cs s)) ≡ (
          let all = recorded h cs s hist in
          if limit == 0
          then panic invalid_input
          else done
              (take (min limit max_page_size) (drop (max cursor (length all - m)) all))
              (view h (run h cs s)))
  get_events_exact cursor limit =
      get_events-refines h cursor limit (run h cs s)
      ∙ get_events-latest m _ (view h (run h cs s)) (run-IsLive h cs m s hist kept live) cursor
          limit

  -- In a ring of capacity `m` that holds the latest `m` events of a history, after any sequence of
  -- invocations without `set_max_events`: `event_count` is the number of the latest `m` events.
  pub event_count_exact :
      observe (view h) (Ring.event_count h (run h cs s))
      ≡ done (length (latest m (recorded h cs s hist))) (view h (run h cs s))
  event_count_exact =
      event_count-refines h (run h cs s)
      ∙ event_count-latest m _ (view h (run h cs s)) (run-IsLive h cs m s hist kept live)
