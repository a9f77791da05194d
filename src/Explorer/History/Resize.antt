-- ===== src/Explorer/History/Resize.antt =====
-- What a change of the capacity does to the events that are retained: the stored entries stay in
-- the slots of the old capacity, and are looked for in those of the new one.
use native.Mathlib.Decide.{ℕ_discrete, dec_lt, dec_le}
use native.Mathlib.Nat.{mod-eq_of_lt, mod-lt}
use octraban_contract.Common.{
  false, get_elem?, ℕ, ◌+◌, ◌%◌, ◌≤◌, ◌<◌, ◌≡◌, ◌≢◌, ◌∙◌, none, some, List, length, arith, ◌==◌,
  if◌then◌else◌, Option-cases, inl, inr, get_elem?-lt, get_elem?-exists, get_elem?_of_le,
}
use octraban_contract.Host.{done, panic, Host, Invocation}
use octraban_contract.Host.Observe.{observe, observe-done}
use octraban_contract.Explorer.Types.{not_found, DecodedEvent, Value, Published}
use octraban_contract.Explorer.Ring
use octraban_contract.Explorer.View.{View, view}
use octraban_contract.Explorer.Spec
use octraban_contract.Explorer.Refine.{set_max_events-refines, get_event-refines}
use octraban_contract.Explorer.History.Live.{IsLive}
use octraban_contract.Explorer.History.Window.{window, get_event-window}

record Resized (n : ℕ) (v v' : View) : Type 0 where
  floor : 1000 ≤ n
  capacity : v'.capacity ≡ some n
  log : v'.log ≡ v.log
  total : v'.total ≡ v.total

set_max_events-Resized :
    (ctx : Invocation) (a n : ℕ) (v v' : View) {r : Unit {0}}
    → Spec.set_max_events ctx a n v ≡ done r v'
    → Resized n v v'
unfolding Spec.set_max_events
set_max_events-Resized ctx a n v v' e = ground arith

module _ (m n : ℕ) (hist : List DecodedEvent) (v v' : View) (live : IsLive m hist v)
    (resized : Resized n v v') where
  resized-hit :
      (seq : ℕ) (e : DecodedEvent)
      → v'.log (seq % n) ≡ some e
      → e.seq ≡ seq
      → Spec.get_event seq v' ≡ done e v'
  unfolding Spec.get_event
  resized-hit seq e found same = ground (arith, resized.capacity, resized.floor)

  resized-miss :
      (seq : ℕ)
      → ((e : DecodedEvent) → v'.log (seq % n) ≡ some e → e.seq ≢ seq)
      → Spec.get_event seq v' ≡ panic not_found
  unfolding Spec.get_event
  resized-miss seq other = elim (Option-cases (v'.log (seq % n))) [
    | inl empty ↦ ground (arith, resized.capacity, resized.floor)
    | inr (e, found) ↦ ground (arith, resized.capacity, resized.floor, other e found)
  ]

  -- What a slot holds for its number is in the window of the old capacity, and in its old slot.
  found_in_window :
      (seq : ℕ) (e : DecodedEvent)
      → v'.log (seq % n) ≡ some e
      → e.seq ≡ seq
      → (seq % n ≡ seq % m) × (seq < length hist) × (length hist ≤ seq + m)
  found_in_window seq e found same =
      let old : v.log (seq % n) ≡ some e = ground (arith, resized.log) in
      let (slot, near) = live.placed (seq % n) e old in
      let kept = get_elem?-lt hist e.seq (live.sound.stored (seq % n) e old) in
      (ground arith, omega arith, omega arith)

  get_event-resized :
      (seq : ℕ)
      → Spec.get_event seq v' ≡ (
          if seq % n == seq % m
          then elim (window m hist seq) [ none ↦ panic not_found | some e ↦ done e v' ]
          else panic not_found)
  get_event-resized seq = elim (ℕ_discrete (seq % n) (seq % m)) [
    | no moved ↦
        ground
          (arith, resized-miss seq (λ e found same. moved (found_in_window seq e found same).0))
    | yes stays ↦ elim (dec_lt seq (length hist)) [
      | no ge ↦ ground (
        arith,
        get_elem?_of_le hist seq,
        resized-miss seq (λ e found same. ge (found_in_window seq e found same).1),
      )
      | yes lt ↦ elim (dec_le (length hist) (seq + m)) [
        | no far ↦
            ground
              (arith, resized-miss seq (λ e found same. far (found_in_window seq e found same).2))
        | yes near ↦
            let (e, held) = get_elem?-exists hist seq lt in
            let slot : v'.log (seq % n) ≡ some e =
              rw (resized.log, stays) (live.present seq e held near) in
            ground (arith, resized-hit seq e slot (live.sound.numbered seq e held))
      ]
    ]
  ]

-- In a ring of capacity `m` that holds the latest `m` events of a history: after a successful change
-- of the capacity to `n`, `get_event` finds a retained event
-- exactly if its number has the same remainder by both: any other retained event is reported as
-- `NotFound`.
pub get_event-set_max_events :
    (h : Host Value Published) (ctx : Invocation) (m n a : ℕ) (hist : List DecodedEvent)
    (s s' : h.State) {r : Unit {0}} (seq : ℕ)
    → IsLive m hist (view h s)
    → Ring.set_max_events h ctx a n s ≡ done r s'
    → observe (view h) (Ring.get_event h seq s') ≡ (
        if seq % n == seq % m
        then elim (window m hist seq) [ none ↦ panic not_found | some e ↦ done e (view h s') ]
        else panic not_found)
get_event-set_max_events h ctx m n a hist s s' seq live e =
    get_event-refines h seq s'
    ∙ get_event-resized m n hist (view h s) (view h s') live
        (set_max_events-Resized ctx a n (view h s) (view h s') (
          observe-done (view h) (Ring.set_max_events h ctx a n s) _
            (set_max_events-refines h ctx a n s) e))
        seq

slot_moves : (m n seq : ℕ) → m ≢ 0 → m ≤ seq → seq < n → (seq % n == seq % m) ≡ false
slot_moves m n seq pos ge lt = ground (arith, mod-eq_of_lt lt, mod-lt seq {m = m})

-- In a ring of capacity `m` that holds the latest `m` events of a history: a successful change of the
-- capacity to `n` hides every retained event numbered from `m` up to below `n`. `get_event` returns it
-- before the change, and reports `NotFound` after it.
pub growth_hides :
    (h : Host Value Published) (ctx : Invocation) (m n a : ℕ) (hist : List DecodedEvent)
    (s s' : h.State) {r : Unit {0}} (seq : ℕ) (e : DecodedEvent)
    → IsLive m hist (view h s)
    → Ring.set_max_events h ctx a n s ≡ done r s'
    → get_elem? hist seq ≡ some e
    → length hist ≤ seq + m
    → m ≤ seq
    → seq < n
    → (observe (view h) (Ring.get_event h seq s) ≡ done e (view h s))
      × (observe (view h) (Ring.get_event h seq s') ≡ panic not_found)
growth_hides h ctx m n a hist s s' seq e live ok held near ge lt =
    let before = get_event-window m hist (view h s) live seq in
    let after = get_event-set_max_events h ctx m n a hist s s' seq live ok in
    let pos : m ≢ 0 = λ z. live.sound.roomy (live.capacity ∙ z) in
    (
      get_event-refines h seq s ∙ before ∙ ground (arith, held),
      after ∙ rw (slot_moves m n seq pos ge lt),
    )
