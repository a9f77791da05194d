-- ===== src/Explorer/History/Pages.antt =====
-- Reading page after page, as the pagination contract of `get_events` tells a client to.
use native.Mathlib.Decide.{dec_lt}
use native.Mathlib.Nat.{suc-add}
use octraban_contract.Common.{
  ℕ, zero, suc, ◌+◌, ◌-◌, ◌≤◌, ◌<◌, ◌≡◌, ◌≢◌, ◌∙◌, min, max, true, some, List, [], ◌∷◌, ◌++◌,
  length, take, drop, get_elem?, ltb, arith, refl, drop-drop, length-drop, length-take, take-nil,
  ap, sym, if◌then◌else◌,
}
use octraban_contract.Host.{Outcome, done, panic, trap, diverge, Action, Host, Invocation}
use octraban_contract.Host.Observe.{observe}
use octraban_contract.Explorer.Types.{Error, max_page_size, DecodedEvent, Value, Published}
use octraban_contract.Explorer.Ring
use octraban_contract.Explorer.Contract.{Call, run}
use octraban_contract.Explorer.View.{View, view}
use octraban_contract.Explorer.Spec
use octraban_contract.Explorer.Refine.{get_events-refines}
use octraban_contract.Explorer.History.{recorded}
use octraban_contract.Explorer.History.Live.{IsLive}
use octraban_contract.Explorer.History.Window.{latest, get_events-latest}
use octraban_contract.Explorer.History.Exact.{no_resize, run-IsLive}

-- The number of the last event of a page, plus 1; the cursor itself for an empty page.
unfoldable pub next_cursor : ℕ → List DecodedEvent → ℕ
next_cursor c [] = c
next_cursor c (e ∷ es) = next_cursor (e.seq + 1) es

abbrev pub prepend :
    {S : Type 0}
    → List DecodedEvent
    → Outcome Error S (List DecodedEvent)
    → Outcome Error S (List DecodedEvent)
prepend es (done fs s) = done (es ++ fs) s
prepend es (panic x) = panic x
prepend es trap = trap
prepend es diverge = diverge

-- A page that is not full is the last one.
abbrev pub follow :
    {S : Type 0}
    → ℕ
    → Outcome Error S (List DecodedEvent)
    → (List DecodedEvent → Action Error S (List DecodedEvent))
    → Outcome Error S (List DecodedEvent)
follow full (done es s) rest = if ltb (length es) full then done es s else prepend es (rest es s)
follow full (panic x) rest = panic x
follow full trap rest = trap
follow full diverge rest = diverge

-- At most `fuel` pages, each from where the last one ended, up to the first page that is not full.
unfoldable pub walk :
    {S : Type 0}
    → (ℕ → ℕ → Action Error S (List DecodedEvent))
    → ℕ
    → ℕ
    → ℕ
    → Action Error S (List DecodedEvent)
walk page zero limit cursor s = diverge
walk page (suc fuel) limit cursor s =
    follow (min limit max_page_size) (page cursor limit s)
      (λ es. walk page fuel limit (next_cursor cursor es))

prepend-observe :
    {S T : Type 0} (f : S → T) (es : List DecodedEvent) (o : Outcome Error S (List DecodedEvent))
    → observe f (prepend es o) ≡ prepend es (observe f o)
prepend-observe f es (done fs s) = refl
prepend-observe f es (panic x) = refl
prepend-observe f es trap = refl
prepend-observe f es diverge = refl

follow-observe :
    {S T : Type 0} (f : S → T) (full : ℕ) (o : Outcome Error S (List DecodedEvent))
    (rest : List DecodedEvent → Action Error S (List DecodedEvent))
    (rest' : List DecodedEvent → Action Error T (List DecodedEvent))
    → ((es : List DecodedEvent) (s : S) → observe f (rest es s) ≡ rest' es (f s))
    → observe f (follow full o rest) ≡ follow full (observe f o) rest'
follow-observe f full (done es s) rest rest' same =
    ground (arith, prepend-observe f es (rest es s), same es s)
follow-observe f full (panic x) rest rest' same = refl
follow-observe f full trap rest rest' same = refl
follow-observe f full diverge rest rest' same = refl

module _ {S T : Type 0} (f : S → T) (page : ℕ → ℕ → Action Error S (List DecodedEvent))
    (spec : ℕ → ℕ → Action Error T (List DecodedEvent))
    (refines : (c l : ℕ) (s : S) → observe f (page c l s) ≡ spec c l (f s)) where
  walk-observe :
      (fuel limit c : ℕ) (s : S)
      → observe f (walk page fuel limit c s) ≡ walk spec fuel limit c (f s)
  unfolding walk
  walk-observe zero limit c s = refl
  walk-observe (suc fuel) limit c s = rw (← refines c limit s) (
      follow-observe f (min limit max_page_size) (page c limit s) _ _
        (λ es s'. walk-observe fuel limit (next_cursor c es) s'))

next_cursor-take :
    (k c : ℕ) (xs : List DecodedEvent)
    → ((i : ℕ) (e : DecodedEvent) → get_elem? xs i ≡ some e → e.seq ≡ c + i)
    → k ≤ length xs
    → next_cursor c (take k xs) ≡ c + k
unfolding next_cursor
next_cursor-take zero c xs numbered le = omega arith
next_cursor-take (suc k) c [] numbered le = absurd (omega arith)
next_cursor-take (suc k) c (x ∷ xs) numbered le =
    let first : x.seq ≡ c = omega (arith, numbered 0 x refl) in
    next_cursor-take k (x.seq + 1) xs (λ i e found. omega (arith, first, numbered (suc i) e found))
      (omega arith)
    ∙ omega (arith, first)

next_cursor-page :
    (k base c : ℕ) (xs : List DecodedEvent)
    → ((i : ℕ) (e : DecodedEvent) → get_elem? xs i ≡ some e → e.seq ≡ base + i)
    → k ≤ length xs
    → k ≢ 0
    → next_cursor c (take k xs) ≡ base + k
unfolding next_cursor
next_cursor-page zero base c xs numbered le pos = absurd (pos refl)
next_cursor-page (suc k) base c [] numbered le pos = absurd (omega arith)
next_cursor-page (suc k) base c (x ∷ xs) numbered le pos =
    let first : x.seq ≡ base = omega (arith, numbered 0 x refl) in
    next_cursor-take k (x.seq + 1) xs (λ i e found. omega (arith, first, numbered (suc i) e found))
      (omega arith)
    ∙ omega (arith, first)

pub get_elem?-drop :
    (n i : ℕ) (xs : List DecodedEvent) → get_elem? (drop n xs) i ≡ get_elem? xs (n + i)
get_elem?-drop zero i xs = ap (get_elem? xs) (omega arith)
get_elem?-drop (suc n) i [] = refl
get_elem?-drop (suc n) i (x ∷ xs) =
    get_elem?-drop n i xs ∙ ap (get_elem? (x ∷ xs)) (sym (suc-add n i))

take-all : (k : ℕ) (xs : List DecodedEvent) → length xs ≤ k → take k xs ≡ xs
take-all k [] le = take-nil DecodedEvent k
take-all zero (x ∷ xs) le = absurd (omega arith)
take-all (suc k) (x ∷ xs) le = ap (λ ys. x ∷ ys) (take-all k xs (omega arith))

take-append-drop : (k : ℕ) (xs : List DecodedEvent) → take k xs ++ drop k xs ≡ xs
take-append-drop zero xs = refl
take-append-drop (suc k) [] = refl
take-append-drop (suc k) (x ∷ xs) = ap (λ ys. x ∷ ys) (take-append-drop k xs)

module _ (m : ℕ) (hist : List DecodedEvent) (v : View) (live : IsLive m hist v) (limit : ℕ)
    (pos : limit ≢ 0) where
  -- The page from `c` on, and the walk from its end.
  walk-page :
      (fuel c : ℕ)
      → length hist - max c (length hist - m) < fuel
      → walk Spec.get_events fuel limit c v ≡ done (drop (max c (length hist - m)) hist) v
  unfolding walk
  walk-page zero c lt = absurd (omega arith)
  walk-page (suc fuel) c lt =
      let start = max c (length hist - m) in
      let full = min limit max_page_size in
      let rest = drop start hist in
      let page = get_events-latest m hist v live c limit in
      let size = length-take full rest in
      let left = length-drop start hist in
      elim (dec_lt (length rest) full) [
        | yes last ↦ ground (arith, page, pos, size, take-all full rest (omega (arith, last)))
        | no more ↦
            let numbered : (i : ℕ) (e : DecodedEvent)
                → get_elem? rest i ≡ some e
                → e.seq ≡ start + i =
              λ i e found.
                live.sound.numbered (start + i) e (sym (get_elem?-drop start i hist) ∙ found) in
            let room : full ≤ length rest = omega (arith, more) in
            let some_room : full ≢ 0 = λ z. pos (omega (arith, z)) in
            let next = next_cursor-page full start c rest numbered room some_room in
            let onward = walk-page fuel (start + full) (omega (arith, lt, left, room, some_room)) in
            ground (
              arith,
              page,
              pos,
              size,
              next,
              onward,
              drop-drop full start hist,
              take-append-drop full rest,
            )
      ]

walk-latest :
    (m : ℕ) (hist : List DecodedEvent) (v : View)
    → IsLive m hist v
    → (limit fuel : ℕ) → limit ≢ 0
    → length hist < fuel
    → walk Spec.get_events fuel limit 0 v ≡ done (latest m hist) v
walk-latest m hist v live limit fuel pos enough =
    walk-page m hist v live limit pos fuel 0 (omega (arith, enough))
    ∙ ap (λ k. done (drop k hist) v) (omega arith)

-- In a ring of capacity `m` that holds the latest `m` events of a history, after any sequence of
-- invocations without `set_max_events`: a client that starts at cursor 0, with any limit but 0, goes on
-- from the number of the last event of a page plus 1, and stops at the first page shorter than the
-- limit or 500, reads each of the latest `m` submitted events once and in order. As many pages as
-- there are submitted events, and one more, are enough.
pub walk_exact :
    (h : Host Value Published) (m : ℕ) (hist : List DecodedEvent) (s : h.State)
    (cs : List (Invocation × Call)) (limit fuel : ℕ)
    → IsLive m hist (view h s)
    → no_resize cs ≡ true
    → limit ≢ 0
    → length (recorded h cs s hist) < fuel
    → observe (view h) (walk (Ring.get_events h) fuel limit 0 (run h cs s))
      ≡ done (latest m (recorded h cs s hist)) (view h (run h cs s))
walk_exact h m hist s cs limit fuel live kept pos enough =
    walk-observe (view h) (Ring.get_events h) Spec.get_events (get_events-refines h) fuel limit 0
      (run h cs s)
    ∙ walk-latest m (recorded h cs s hist) (view h (run h cs s))
        (run-IsLive h cs m s hist kept live) limit fuel pos enough
