-- ===== src/Explorer/History/Complete.antt =====
-- Reading page after page while others use the contract: what a client cannot miss.
use native.Mathlib.Decide.{dec_lt}
use octraban_contract.Common.{
  ℕ, suc, ◌+◌, ◌-◌, ◌≤◌, ◌<◌, ◌≡◌, ◌≢◌, ◌∙◌, min, max, true, Option, some, List, [], ◌∷◌, ◌++◌,
  ◌&&◌, Bool, length, take, drop, get_elem?, get_elem?-lt, get_elem?-exists, get_elem?-take,
  get_elem?-append_left, get_elem?-append_right, length-take, length-drop, arith, refl, sym, ap,
  subst,
}
use octraban_contract.Host.{Host, Invocation}
use octraban_contract.Explorer.Types.{DecodedEvent, Value, Published, max_page_size}
use octraban_contract.Explorer.Ring
use octraban_contract.Explorer.Contract.{Call, commit, run}
use octraban_contract.Explorer.View.{View, view}
use octraban_contract.Explorer.Refine.{get_events-refines}
use octraban_contract.Explorer.History.{recorded}
use octraban_contract.Explorer.History.Live.{IsLive}
use octraban_contract.Explorer.History.Window.{get_events-latest}
use octraban_contract.Explorer.History.Exact.{no_resize, run-IsLive}
use octraban_contract.Explorer.History.Pages.{next_cursor, get_elem?-drop}
use octraban_contract.Explorer.History.Interleaved.{
  page_of, read_along, recorded_along, page_same, recorded_along-Extends, Extends,
}

-- The events are numbered from `base` on, without a gap.
IsNumbered : ℕ → List DecodedEvent → Type 0
IsNumbered base es = (i : ℕ) (e : DecodedEvent) → get_elem? es i ≡ some e → e.seq ≡ base + i

-- The cursor after a page without a gap.
next_cursor-bound :
    (base c n : ℕ) (es : List DecodedEvent)
    → IsNumbered base es
    → n < next_cursor c es
    → c ≤ n
    → n < base + length es
unfolding next_cursor IsNumbered
next_cursor-bound base c n [] numbered below from = absurd (omega arith)
next_cursor-bound base c n (e ∷ es) numbered below from = elim (dec_lt n (base + 1)) [
  | yes here ↦ omega arith
  | no later ↦
      let first : e.seq ≡ base = omega (arith, numbered 0 e refl) in
      let rest =
        next_cursor-bound (base + 1) (e.seq + 1) n es
          (λ i x found. omega (arith, numbered (suc i) x found)) below (omega (arith, first)) in
      omega (arith, rest)
]

-- An event of the history that the ring holds, between the cursor and the next one, is on the page.
on_page :
    (m : ℕ) (hist : List DecodedEvent) (v : View)
    → IsLive m hist v
    → (k c n : ℕ)
    → let start = max c (length hist - m) in
      let page = take k (drop start hist) in
      n < next_cursor c page
      → c ≤ n
      → length hist ≤ n + m
      → (i : ℕ) × (e : DecodedEvent) × (get_elem? hist n ≡ some e) × (get_elem? page i ≡ some e)
unfolding IsNumbered
on_page m hist v live k c n below from near =
    let start = max c (length hist - m) in
    let rest = drop start hist in
    let page = take k rest in
    let size = length-take k rest in
    let left = length-drop start hist in
    let numbered : IsNumbered start page = λ i e found.
      let short = get_elem?-lt page i found in
      live.sound.numbered (start + i) e (
        sym (get_elem?-drop start i hist)
        ∙ sym (get_elem?-take k i rest (omega (arith, short, size)))
        ∙ found) in
    let bound = next_cursor-bound start c n page numbered below from in
    let (e, held) = get_elem?-exists hist n (omega (arith, bound, size, left)) in
    (
      n - start,
      e,
      held,
      get_elem?-take k (n - start) rest (omega (arith, bound, size))
          ∙ get_elem?-drop start (n - start) hist
          ∙ ap (get_elem? hist) (omega arith)
          ∙ held,
    )

-- What a reader has seen.
abbrev pub Seen : DecodedEvent → List DecodedEvent → Type 0
Seen e es = (i : ℕ) × (get_elem? es i ≡ some e)

Seen-left : (e : DecodedEvent) (es fs : List DecodedEvent) → Seen e es → Seen e (es ++ fs)
Seen-left e es fs (i, at) = (i, get_elem?-append_left es fs i (get_elem?-lt es i at) ∙ at)

Seen-right : (e : DecodedEvent) (es fs : List DecodedEvent) → Seen e fs → Seen e (es ++ fs)
Seen-right e es fs (i, at) = (length es + i, get_elem?-append_right es fs i ∙ at)

length-Extends : (hist hist' : List DecodedEvent) → Extends hist hist' → length hist ≤ length hist'
length-Extends [] hist' ext = omega arith
length-Extends (x ∷ xs) hist' ext =
    let (e, held) = get_elem?-exists (x ∷ xs) (length xs) (omega arith) in
    let short = get_elem?-lt hist' (length xs) (ext (length xs) e held) in omega (arith, short)

-- No round changes the capacity.
abbrev pub none_resizes : List (List (Invocation × Call)) → Bool
none_resizes [] = true
none_resizes (cs ∷ rounds) = no_resize cs && none_resizes rounds

module _ (h : Host Value Published) (limit : ℕ) where
  -- The cursor for the page after the last round.
  unfoldable pub cursor_along : List (List (Invocation × Call)) → ℕ → h.State → ℕ
  cursor_along [] cursor s = cursor
  cursor_along (cs ∷ rounds) cursor s =
      let o = Ring.get_events h cursor limit (run h cs s) in
      cursor_along rounds (next_cursor cursor (page_of o)) (commit o (run h cs s))

  page-latest :
      (m cursor : ℕ) (s : h.State) (hist : List DecodedEvent)
      → IsLive m hist (view h s)
      → limit ≢ 0
      → page_of (Ring.get_events h cursor limit s)
        ≡ take (min limit max_page_size) (drop (max cursor (length hist - m)) hist)
  page-latest m cursor s hist live pos = ground (
    arith,
    get_events-refines h cursor limit s,
    get_events-latest m hist (view h s) live cursor limit,
  )

  page-Seen :
      (m cursor n : ℕ) (s : h.State) (hist : List DecodedEvent)
      → IsLive m hist (view h s)
      → limit ≢ 0
      → n < next_cursor cursor (page_of (Ring.get_events h cursor limit s))
      → cursor ≤ n
      → length hist ≤ n + m
      → (e : DecodedEvent) × (get_elem? hist n ≡ some e)
        × Seen e (page_of (Ring.get_events h cursor limit s))
  page-Seen m cursor n s hist live pos below from near =
      let page = page-latest m cursor s hist live pos in
      let (i, e, held, at) =
        on_page m hist (view h s) live (min limit max_page_size) cursor n (rw page at below) from
          near in
      (e, held, (i, rw page at))

  some_same : {A : Type 0} (a b : A) (o : Option A) → o ≡ some a → o ≡ some b → a ≡ b
  some_same a b o p q = cc

  -- In a ring of capacity `m` that holds the latest `m` events of a history, a reader asks for page
  -- after page with any limit but 0, each from the number after the last event it has seen, while
  -- others invoke whatever they like but `set_max_events` between the pages: every event that is
  -- numbered from the first cursor up to below the last one, and is still among the latest `m` at
  -- the end, is among the events that the reader has seen.
  pub read_along_complete :
      (m : ℕ) (rounds : List (List (Invocation × Call))) (cursor : ℕ) (s : h.State)
      (hist : List DecodedEvent) (n : ℕ) (e : DecodedEvent)
      → IsLive m hist (view h s)
      → none_resizes rounds ≡ true
      → limit ≢ 0
      → cursor ≤ n
      → n < cursor_along rounds cursor s
      → get_elem? (recorded_along h limit rounds cursor s hist) n ≡ some e
      → length (recorded_along h limit rounds cursor s hist) ≤ n + m
      → Seen e (read_along h limit rounds cursor s)
  unfolding read_along recorded_along cursor_along
  read_along_complete m [] cursor s hist n e live kept pos from below held near =
      absurd (omega (arith, from, below))
  read_along_complete m (cs ∷ rounds) cursor s hist n e live kept pos from below held near =
      let s1 = run h cs s in
      let hist1 = recorded h cs s hist in
      let o = Ring.get_events h cursor limit s1 in
      let next = next_cursor cursor (page_of o) in
      let now = run-IsLive h cs m s hist (ground arith) live in
      let ext = recorded_along-Extends h limit rounds next (commit o s1) hist1 in
      let longer = length-Extends hist1 _ ext in
      elim (dec_lt n next) [
        | yes here ↦
            let (e1, held1, seen) =
              page-Seen m cursor n s1 hist1 now pos here from (omega (arith, longer, near)) in
            Seen-left e (page_of o) _
              (subst (λ x. Seen x (page_of o)) (some_same e1 e _ (ext n e1 held1) held) seen)
        | no later ↦
            let after : IsLive m hist1 (view h (commit o s1)) =
              rw (page_same h limit cursor s1 o refl) now in
            Seen-right e (page_of o) _ (
              read_along_complete m rounds next (commit o s1) hist1 n e after (ground arith) pos
                (omega (arith, later)) below held near)
      ]
