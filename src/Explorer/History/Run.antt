-- ===== src/Explorer/History/Run.antt =====
-- The ring buffer after any sequence of invocations.
use octraban_contract.Common.{ℕ, ◌%◌, ◌≡◌, none, some, List, [], ◌∷◌, get_elem?, arith, refl}
use octraban_contract.Host.{Outcome, done, panic, trap, diverge, Host, Invocation}
use octraban_contract.Host.Observe.{observe-done}
use octraban_contract.Explorer.Types.{Error, DecodedEvent, Value, Published}
use octraban_contract.Explorer.Contract.{Call, invoke, commit, run}
use octraban_contract.Explorer.Ring
use octraban_contract.Explorer.View.{View, view}
use octraban_contract.Explorer.Spec
use octraban_contract.Explorer.Refine.{invoke-done, get_event-refines}
use octraban_contract.Explorer.History.{archive_if, recorded}
use octraban_contract.Explorer.History.Sound.{IsSound, invoke-IsSound}

-- A contract that was never called: nothing is stored.
pub record IsFresh (v : View) : Type 0 where
  pub owner : v.owner ≡ none
  pub nominee : v.nominee ≡ none
  pub total : v.total ≡ none
  pub capacity : v.capacity ≡ none
  pub contracts : (id : ℕ) → v.contracts id ≡ none
  pub versions : (id n : ℕ) → v.versions id n ≡ none
  pub log : (i : ℕ) → v.log i ≡ none

pub IsFresh-IsSound : (v : View) → IsFresh v → IsSound [] v
IsFresh-IsSound v fresh = record {
  counted = ground arith;
  roomy = ground arith;
  stored = λ i e found. ground (arith, fresh.log i);
  numbered = λ n e found. cc;
  unopened = λ _. refl;
}

module _ (h : Host Value Published) where
  step-IsSound :
      (ctx : Invocation) (c : Call) (s : h.State) (hist : List DecodedEvent)
      (o : Outcome Error h.State (Unit {0}))
      → invoke h ctx c s ≡ o
      → IsSound hist (view h s)
      → IsSound (archive_if o c hist) (view h (commit o s))
  step-IsSound ctx c s hist (done tt s') e sound =
      invoke-IsSound ctx c hist (view h s) (view h s') (invoke-done h ctx c s s' e) sound
  step-IsSound ctx c s hist (panic x) e sound = sound
  step-IsSound ctx c s hist trap e sound = sound
  step-IsSound ctx c s hist diverge e sound = sound

  pub run-IsSound :
      (cs : List (Invocation × Call)) (s : h.State) (hist : List DecodedEvent)
      → IsSound hist (view h s)
      → IsSound (recorded h cs s hist) (view h (run h cs s))
  unfolding run recorded
  run-IsSound [] s hist sound = sound
  run-IsSound ((ctx, c) ∷ cs) s hist sound =
      run-IsSound cs _ _ (step-IsSound ctx c s hist (invoke h ctx c s) refl sound)

  found-get_event :
      (n : ℕ) (v : View) {e : DecodedEvent} {v' : View}
      → Spec.get_event n v ≡ done e v'
      → (i : ℕ) × (v.log i ≡ some e) × (e.seq ≡ n)
  unfolding Spec.get_event
  found-get_event n v e = (n % Spec.capacity_of v, ground arith, ground arith)

  -- After any sequence of invocations on a new contract, whoever made them and however they ended,
  -- the capacity changed or not, `get_event` returns for a number nothing but the event that was
  -- submitted under that number.
  pub get_event_sound :
      (cs : List (Invocation × Call)) (s s' : h.State) (n : ℕ) {e : DecodedEvent}
      → IsFresh (view h s)
      → Ring.get_event h n (run h cs s) ≡ done e s'
      → get_elem? (recorded h cs s []) n ≡ some e
  get_event_sound cs s s' n {e} fresh got =
      let sound = run-IsSound cs s [] (IsFresh-IsSound (view h s) fresh) in
      let (i, at_slot, numbered) =
        found-get_event n (view h (run h cs s)) (
          observe-done (view h) (Ring.get_event h n (run h cs s)) _ (get_event-refines h n _)
            got) in
      ground (arith, sound.stored i e at_slot)
