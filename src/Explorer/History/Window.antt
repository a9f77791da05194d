-- ===== src/Explorer/History/Window.antt =====
-- What the reads of the ring buffer return while the capacity stays what it was: the events of the
-- history that lie in the window of the latest `m`.
use native.Mathlib.Decide.{dec_le, dec_lt}
use octraban_contract.Common.{
  ℕ, zero, suc, ◌+◌, ◌-◌, ◌%◌, ◌≤◌, ◌≡◌, ◌≢◌, min, max, none, some, Option, List, length, take,
  drop, get_elem?, get_elem?-lt, get_elem?-exists, get_elem?_of_le, drop-get_elem?,
  drop_of_length_le, length-drop, arith, leb, ◌==◌, if◌then◌else◌, Option-cases, inl, inr, sym,
}
use octraban_contract.Host.{done, panic}
use octraban_contract.Explorer.Types.{not_found, invalid_input, max_page_size, DecodedEvent}
use octraban_contract.Explorer.View.{View}
use octraban_contract.Explorer.Spec
use octraban_contract.Explorer.History.Live.{IsLive}

-- The event of a number, as long as it is among the latest `m`.
abbrev pub window : ℕ → List DecodedEvent → ℕ → Option DecodedEvent
window m hist n = if leb (length hist) (n + m) then get_elem? hist n else none

-- The latest `m` events.
abbrev pub latest : ℕ → List DecodedEvent → List DecodedEvent
latest m hist = drop (length hist - m) hist

module _ (m : ℕ) (hist : List DecodedEvent) (v : View) (live : IsLive m hist v) where
  get_event-hit :
      (n : ℕ) (e : DecodedEvent)
      → get_elem? hist n ≡ some e
      → length hist ≤ n + m
      → Spec.get_event n v ≡ done e v
  unfolding Spec.get_event
  get_event-hit n e found near =
      let slot : v.log (n % Spec.capacity_of v) ≡ some e =
        rw live.capacity (live.present n e found near) in
      ground (arith, live.sound.roomy, live.sound.numbered n e found)

  get_event-miss :
      (n : ℕ)
      → ((e : DecodedEvent) → v.log (n % m) ≡ some e → e.seq ≢ n)
      → Spec.get_event n v ≡ panic not_found
  unfolding Spec.get_event
  get_event-miss n other = elim (Option-cases (v.log (n % m))) [
    | inl empty ↦ rw live.capacity (ground (arith, live.sound.roomy))
    | inr (e, found) ↦ rw live.capacity (ground (arith, live.sound.roomy, other e found))
  ]

  pub get_event-window :
      (n : ℕ)
      → Spec.get_event n v ≡ (elim (window m hist n) [ none ↦ panic not_found | some e ↦ done e v ])
  get_event-window n = elim (dec_lt n (length hist)) [
    | no ge ↦ ground (
      arith,
      get_elem?_of_le hist n,
      get_event-miss n (λ e found same.
          ge (rw same at (get_elem?-lt hist e.seq (live.sound.stored (n % m) e found)))),
    )
    | yes lt ↦ elim (dec_le (length hist) (n + m)) [
      | yes near ↦
          let (e, found) = get_elem?-exists hist n lt in
          ground (arith, get_event-hit n e found near)
      | no far ↦ ground (
        arith,
        get_event-miss n (λ e found same. far (omega (arith, (live.placed (n % m) e found).1))),
      )
    ]
  ]

  -- From a number in the window on, what is live is the rest of the history.
  live-drop :
      (k seq : ℕ)
      → k ≡ length hist - seq
      → length hist ≤ seq + m
      → Spec.live v.log m seq k ≡ drop seq hist
  unfolding Spec.live
  live-drop zero seq e near = sym (drop_of_length_le seq hist (omega arith))
  live-drop (suc k) seq e near =
      let (x, found) = get_elem?-exists hist seq (omega arith) in
      ground (
        arith,
        live.present seq x found near,
        live.sound.numbered seq x found,
        live-drop k (seq + 1),
        drop-get_elem? seq hist found,
      )

  pub get_events-latest :
      (cursor limit : ℕ)
      → Spec.get_events cursor limit v ≡ (
          if limit == 0
          then panic invalid_input
          else done (take (min limit max_page_size) (drop (max cursor (length hist - m)) hist)) v)
  unfolding Spec.get_events
  get_events-latest cursor limit =
      let start = max cursor (length hist - m) in
      let total = live.sound.counted in
      ground (arith, live.capacity, live.sound.roomy, live-drop (length hist - start) start)

  pub event_count-latest : Spec.event_count v ≡ done (length (latest m hist)) v
  unfolding Spec.event_count
  event_count-latest =
      ground (arith, live.capacity, live.sound.counted, length-drop (length hist - m) hist)
