-- ===== src/Explorer/History/Agreement.antt =====
-- `get_events` against `get_event`, in every state, also after changes of the capacity.
use octraban_contract.Common.{
  ℕ, zero, suc, ◌+◌, ◌-◌, ◌%◌, ◌≤◌, ◌≡◌, ◌≢◌, ◌∙◌, min, max, Option, none, some, List, [], ◌∷◌,
  ◌==◌, Bool, true, false, if◌then◌else◌, take, get_elem?, arith, refl, ap, sym, subst, ⊤,
}
use octraban_contract.Host.{Outcome, done, panic, trap, diverge, Host, Invocation}
use octraban_contract.Host.Observe.{observe, observe-done}
use octraban_contract.Explorer.Types.{Error, max_page_size, DecodedEvent, Value, Published}
use octraban_contract.Explorer.Ring
use octraban_contract.Explorer.Contract.{Call, run}
use octraban_contract.Explorer.View.{View, view}
use octraban_contract.Explorer.Spec
use octraban_contract.Explorer.Refine.{get_event-refines, get_events-refines}
use octraban_contract.Explorer.History.{recorded}
use octraban_contract.Explorer.History.Sound.{IsSound}
use octraban_contract.Explorer.History.Run.{IsFresh, IsFresh-IsSound, run-IsSound}

-- What a read found.
abbrev pub found : {S A : Type 0} → Outcome Error S A → Option A
found (done a _) = some a
found (panic _) = none
found trap = none
found diverge = none

found-observe : {S T A : Type 0} (f : S → T) (o : Outcome Error S A) → found (observe f o) ≡ found o
found-observe f (done a s) = refl
found-observe f (panic e) = refl
found-observe f trap = refl
found-observe f diverge = refl

-- The events that `read` finds under the `n` numbers from `seq` on.
unfoldable pub collect : (ℕ → Option DecodedEvent) → ℕ → ℕ → List DecodedEvent
collect read seq zero = []
collect read seq (suc n) =
    let rest = collect read (seq + 1) n in elim (read seq) [ none ↦ rest | some e ↦ e ∷ rest ]

live-collect :
    (v : View) (read : ℕ → Option DecodedEvent)
    → ((n : ℕ) → read n ≡ found (Spec.get_event n v))
    → Spec.capacity_of v ≢ 0
    → (seq n : ℕ) → Spec.live v.log (Spec.capacity_of v) seq n ≡ collect read seq n
unfolding Spec.live Spec.get_event collect
live-collect v read same roomy seq zero = refl
live-collect v read same roomy seq (suc n) =
    ground (arith, same seq, live-collect v read same roomy (seq + 1) n)

get_events-collect_lem :
    (v : View) (read : ℕ → Option DecodedEvent) (cursor limit : ℕ)
    → ((n : ℕ) → read n ≡ found (Spec.get_event n v))
    → Spec.capacity_of v ≢ 0
    → limit ≢ 0
    → Spec.get_events cursor limit v
      ≡ done
          (take
            (min limit max_page_size)
            (collect read (Spec.start_of v cursor) (Spec.total_of v - Spec.start_of v cursor)))
          v
unfolding Spec.get_events
get_events-collect_lem v read cursor limit same roomy pos = ground (
  arith,
  live-collect v read same roomy (Spec.start_of v cursor)
      (Spec.total_of v - Spec.start_of v cursor),
)

-- In every state whose capacity is not 0, reached by changes of the capacity or not: `get_events`
-- with a limit other than 0 returns, up to the limit and 500, exactly the events that `get_event`
-- finds when it is called for each number in turn, from the cursor or the oldest number that the
-- capacity allows up to the number of submitted events.
pub get_events-get_event :
    (h : Host Value Published) (s : h.State) (cursor limit : ℕ)
    → Spec.capacity_of (view h s) ≢ 0
    → limit ≢ 0
    → let v = view h s in
      let start = max cursor (Spec.total_of v - Spec.capacity_of v) in
      observe (view h) (Ring.get_events h cursor limit s)
      ≡ done
          (take
            (min limit max_page_size)
            (collect (λ n. found (Ring.get_event h n s)) start (Spec.total_of v - start)))
          v
get_events-get_event h s cursor limit roomy pos =
    get_events-refines h cursor limit s
    ∙ get_events-collect_lem (view h s) (λ n. found (Ring.get_event h n s)) cursor limit
        (λ n.
          sym (found-observe (view h) (Ring.get_event h n s)) ∙ ap found (get_event-refines h n s))
        roomy pos

-- Events of the history, with numbers that ascend from `c` on.
abbrev pub Ascends : List DecodedEvent → ℕ → List DecodedEvent → Type 0
Ascends hist c [] = ⊤
Ascends hist c (e ∷ es) =
    (c ≤ e.seq) × (get_elem? hist e.seq ≡ some e) × Ascends hist (e.seq + 1) es

pub Ascends-le :
    (hist : List DecodedEvent) (c d : ℕ) (es : List DecodedEvent)
    → c ≤ d
    → Ascends hist d es
    → Ascends hist c es
Ascends-le hist c d [] le up = tt
Ascends-le hist c d (e ∷ es) le up = (omega (arith, up.0), up.1, up.2)

Ascends-take :
    (hist : List DecodedEvent) (n c : ℕ) (es : List DecodedEvent)
    → Ascends hist c es
    → Ascends hist c (take n es)
Ascends-take hist zero c es up = tt
Ascends-take hist (suc n) c [] up = tt
Ascends-take hist (suc n) c (e ∷ es) up = (up.0, up.1, Ascends-take hist n (e.seq + 1) es up.2)

tested-Ascends :
    (hist : List DecodedEvent) (c : ℕ) (e : DecodedEvent) (rest : List DecodedEvent) (b : Bool)
    → (e.seq == c) ≡ b
    → get_elem? hist e.seq ≡ some e
    → Ascends hist (c + 1) rest
    → Ascends hist c (if b then e ∷ rest else rest)
tested-Ascends hist c e rest true same held up =
    (ground arith, held, Ascends-le hist (e.seq + 1) (c + 1) rest (ground arith) up)
tested-Ascends hist c e rest false other held up = Ascends-le hist c (c + 1) rest (omega arith) up

-- A slot that holds the event numbered `c` puts it before the later ones.
slot-Ascends :
    (hist : List DecodedEvent) (c : ℕ) (slot : Option DecodedEvent) (rest : List DecodedEvent)
    → ((e : DecodedEvent) → slot ≡ some e → get_elem? hist e.seq ≡ some e)
    → Ascends hist (c + 1) rest
    → Ascends hist c (elim slot [ none ↦ rest | some e ↦ if e.seq == c then e ∷ rest else rest ])
slot-Ascends hist c none rest stored up = Ascends-le hist c (c + 1) rest (omega arith) up
slot-Ascends hist c (some e) rest stored up =
    tested-Ascends hist c e rest (e.seq == c) refl (stored e refl) up

live-Ascends :
    (hist : List DecodedEvent) (v : View)
    → IsSound hist v
    → (m c n : ℕ) → Ascends hist c (Spec.live v.log m c n)
unfolding Spec.live
live-Ascends hist v sound m c zero = tt
live-Ascends hist v sound m c (suc n) =
    slot-Ascends hist c (v.log (c % m)) _ (λ e. sound.stored (c % m) e)
      (live-Ascends hist v sound m (c + 1) n)

get_events-inverted :
    (cursor limit : ℕ) (v v' : View) {es : List DecodedEvent}
    → Spec.get_events cursor limit v ≡ done es v'
    → es
      ≡ take (min limit max_page_size) (
          Spec.live v.log
            (Spec.capacity_of v)
            (Spec.start_of v cursor)
            (Spec.total_of v - Spec.start_of v cursor))
unfolding Spec.get_events
get_events-inverted cursor limit v v' e = ground arith

-- A page of a ring that agrees with a history.
pub get_events-Ascends :
    (h : Host Value Published) (s s' : h.State) (hist : List DecodedEvent) (cursor limit : ℕ)
    {es : List DecodedEvent}
    → IsSound hist (view h s)
    → Ring.get_events h cursor limit s ≡ done es s'
    → Ascends hist cursor es
get_events-Ascends h s s' hist cursor limit {es} sound got =
    let v = view h s in
    let page = get_events-inverted cursor limit v (view h s') (
      observe-done (view h) (Ring.get_events h cursor limit s) _
        (get_events-refines h cursor limit s) got) in
    let ascends =
      live-Ascends hist v sound (Spec.capacity_of v) (Spec.start_of v cursor)
        (Spec.total_of v - Spec.start_of v cursor) in
    subst (Ascends hist cursor) (sym page) (
      Ascends-le hist cursor (Spec.start_of v cursor) _ (omega arith)
        (Ascends-take hist (min limit max_page_size) _ _ ascends))

-- After any sequence of invocations on a new contract, whoever made them and however they ended,
-- the capacity changed or not: each event of a page that `get_events` returns is the one that was
-- submitted under the number it carries, the numbers ascend, and none of them is below the cursor.
pub get_events_sound :
    (h : Host Value Published) (cs : List (Invocation × Call)) (s s' : h.State) (cursor limit : ℕ)
    {es : List DecodedEvent}
    → IsFresh (view h s)
    → Ring.get_events h cursor limit (run h cs s) ≡ done es s'
    → Ascends (recorded h cs s []) cursor es
get_events_sound h cs s s' cursor limit fresh got =
    get_events-Ascends h (run h cs s) s' (recorded h cs s []) cursor limit
      (run-IsSound h cs s [] (IsFresh-IsSound (view h s) fresh)) got
