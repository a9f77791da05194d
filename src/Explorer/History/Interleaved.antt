-- ===== src/Explorer/History/Interleaved.antt =====
-- Reading page after page while others use the contract: what a client sees that follows the
-- pagination contract of `get_events`.
use octraban_contract.Common.{
  ℕ, ◌+◌, ◌≡◌, ◌∙◌, some, List, [], ◌∷◌, ◌++◌, get_elem?, get_elem?-lt, get_elem?-append_left, refl,
}
use octraban_contract.Host.{Outcome, done, panic, trap, diverge, Host, Invocation}
use octraban_contract.Host.Observe.{observe-done}
use octraban_contract.Explorer.Types.{Error, DecodedEvent, Value, Published}
use octraban_contract.Explorer.Ring
use octraban_contract.Explorer.Contract.{Call, invoke, commit, run}
use octraban_contract.Explorer.View.{view}
use octraban_contract.Explorer.Refine.{get_events-refines}
use octraban_contract.Explorer.History.{archive_if, recorded}
use octraban_contract.Explorer.History.Sound.{IsSound}
use octraban_contract.Explorer.History.Run.{IsFresh, IsFresh-IsSound, run-IsSound}
use octraban_contract.Explorer.History.Agreement.{Ascends, get_events-Ascends}
use octraban_contract.Explorer.Safety.Reads.{get_events-view}
use octraban_contract.Explorer.History.Pages.{next_cursor}

-- The events of a page; none of a call that failed.
abbrev pub page_of : {S : Type 0} → Outcome Error S (List DecodedEvent) → List DecodedEvent
page_of (done es _) = es
page_of (panic _) = []
page_of trap = []
page_of diverge = []

-- In each round others make their invocations, then the reader asks for a page from the number after
-- the last one it has seen. All events that it sees, and the history at the end.
module _ (h : Host Value Published) (limit : ℕ) where
  unfoldable pub read_along : List (List (Invocation × Call)) → ℕ → h.State → List DecodedEvent
  read_along [] cursor s = []
  read_along (cs ∷ rounds) cursor s =
      let o = Ring.get_events h cursor limit (run h cs s) in
      page_of o ++ read_along rounds (next_cursor cursor (page_of o)) (commit o (run h cs s))

  unfoldable pub recorded_along :
      List (List (Invocation × Call)) → ℕ → h.State → List DecodedEvent → List DecodedEvent
  recorded_along [] cursor s hist = hist
  recorded_along (cs ∷ rounds) cursor s hist =
      let o = Ring.get_events h cursor limit (run h cs s) in
      recorded_along rounds (next_cursor cursor (page_of o)) (commit o (run h cs s))
        (recorded h cs s hist)

-- The second history has the events of the first, under the same numbers.
abbrev pub Extends : List DecodedEvent → List DecodedEvent → Type 0
Extends hist hist' =
    (n : ℕ) (e : DecodedEvent) → get_elem? hist n ≡ some e → get_elem? hist' n ≡ some e

archive_if-Extends :
    {S A : Type 0} (o : Outcome Error S A) (c : Call) (hist : List DecodedEvent)
    → Extends hist (archive_if o c hist)
archive_if-Extends (done _ _) (Call.submit_event a i) hist n e found =
    get_elem?-append_left hist _ n (get_elem?-lt hist n found) ∙ found
archive_if-Extends (done _ _) c hist n e found = found
archive_if-Extends (panic _) c hist n e found = found
archive_if-Extends trap c hist n e found = found
archive_if-Extends diverge c hist n e found = found

recorded-Extends :
    (h : Host Value Published) (cs : List (Invocation × Call)) (s : h.State)
    (hist : List DecodedEvent)
    → Extends hist (recorded h cs s hist)
unfolding recorded
recorded-Extends h [] s hist n e found = found
recorded-Extends h ((ctx, c) ∷ cs) s hist n e found =
    let o = invoke h ctx c s in
    recorded-Extends h cs (commit o s) (archive_if o c hist) n e
      (archive_if-Extends o c hist n e found)

pub recorded_along-Extends :
    (h : Host Value Published) (limit : ℕ) (rounds : List (List (Invocation × Call))) (cursor : ℕ)
    (s : h.State) (hist : List DecodedEvent)
    → Extends hist (recorded_along h limit rounds cursor s hist)
unfolding recorded_along
recorded_along-Extends h limit [] cursor s hist n e found = found
recorded_along-Extends h limit (cs ∷ rounds) cursor s hist n e found =
    recorded_along-Extends h limit rounds _ _ (recorded h cs s hist) n e
      (recorded-Extends h cs s hist n e found)

Ascends-Extends :
    (hist hist' : List DecodedEvent) (c : ℕ) (es : List DecodedEvent)
    → Extends hist hist'
    → Ascends hist c es
    → Ascends hist' c es
Ascends-Extends hist hist' c [] ext up = tt
Ascends-Extends hist hist' c (e ∷ es) ext up =
    (up.0, ext e.seq e up.1, Ascends-Extends hist hist' (e.seq + 1) es ext up.2)

Ascends-append :
    (hist : List DecodedEvent) (c : ℕ) (es fs : List DecodedEvent)
    → Ascends hist c es
    → Ascends hist (next_cursor c es) fs
    → Ascends hist c (es ++ fs)
unfolding next_cursor
Ascends-append hist c [] fs up later = later
Ascends-append hist c (e ∷ es) fs up later =
    (up.0, up.1, Ascends-append hist (e.seq + 1) es fs up.2 later)

module _ (h : Host Value Published) (limit : ℕ) where
  page-Ascends :
      (cursor : ℕ) (s : h.State) (hist : List DecodedEvent)
      (o : Outcome Error h.State (List DecodedEvent))
      → Ring.get_events h cursor limit s ≡ o
      → IsSound hist (view h s)
      → Ascends hist cursor (page_of o)
  page-Ascends cursor s hist (done es s') e sound =
      get_events-Ascends h s s' hist cursor limit sound e
  page-Ascends cursor s hist (panic x) e sound = tt
  page-Ascends cursor s hist trap e sound = tt
  page-Ascends cursor s hist diverge e sound = tt

  -- A page leaves what can be seen of the storage as it is.
  pub page_same :
      (cursor : ℕ) (s : h.State) (o : Outcome Error h.State (List DecodedEvent))
      → Ring.get_events h cursor limit s ≡ o
      → view h (commit o s) ≡ view h s
  page_same cursor s (done es s') e = get_events-view cursor limit (view h s) (
      observe-done (view h) (Ring.get_events h cursor limit s) _
        (get_events-refines h cursor limit s) e)
  page_same cursor s (panic x) e = refl
  page_same cursor s trap e = refl
  page_same cursor s diverge e = refl

  read_along-Ascends :
      (rounds : List (List (Invocation × Call))) (cursor : ℕ) (s : h.State)
      (hist : List DecodedEvent)
      → IsSound hist (view h s)
      → Ascends
          (recorded_along h limit rounds cursor s hist)
          cursor
          (read_along h limit rounds cursor s)
  unfolding read_along recorded_along
  read_along-Ascends [] cursor s hist sound = tt
  read_along-Ascends (cs ∷ rounds) cursor s hist sound =
      let s1 = run h cs s in
      let hist1 = recorded h cs s hist in
      let o = Ring.get_events h cursor limit s1 in
      let now = run-IsSound h cs s hist sound in
      let next = next_cursor cursor (page_of o) in
      let after : IsSound hist1 (view h (commit o s1)) = rw (page_same cursor s1 o refl) now in
      Ascends-append (recorded_along h limit rounds next (commit o s1) hist1) cursor (page_of o) _
        (Ascends-Extends hist1 _ cursor (page_of o)
          (recorded_along-Extends h limit rounds next (commit o s1) hist1)
          (page-Ascends cursor s1 hist1 o refl now))
        (read_along-Ascends rounds next (commit o s1) hist1 after)

  -- From a new contract on, a reader asks for page after page, each from the number after the last
  -- event it has seen, while others invoke whatever they like between the pages, changes of the
  -- capacity included: the numbers of all the events it sees ascend from its cursor, so none comes
  -- twice, and each is the event that was submitted under its number.
  pub read_along_sound :
      (rounds : List (List (Invocation × Call))) (cursor : ℕ) (s : h.State)
      → IsFresh (view h s)
      → Ascends
          (recorded_along h limit rounds cursor s [])
          cursor
          (read_along h limit rounds cursor s)
  read_along_sound rounds cursor s fresh =
      read_along-Ascends rounds cursor s [] (IsFresh-IsSound (view h s) fresh)
