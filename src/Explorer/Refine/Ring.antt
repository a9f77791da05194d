-- ===== src/Explorer/Refine/Ring.antt =====
-- The ring buffer against its specification.
use native.Mathlib.Decide.{dec_lt, ℕ_discrete}
use octraban_contract.Common.{
  ℕ, zero, suc, ◌+◌, ◌-◌, ◌<◌, ◌≤◌, ◌==◌, ◌&&◌, ltb, if◌then◌else◌, min, ◌%◌, ◌≡◌, ◌≢◌, List, ◌++◌,
  take, take-nil, take-eq-nil, take-cons, length, length-append, [], ◌∷◌, arith, append-nil,
  append_assoc, Option-cases, inl, inr,
}
use octraban_contract.Host.{Host, Invocation, done, trap}
use octraban_contract.Host.Observe.{observe}
use octraban_contract.Explorer.Types.{Address, DecodedEvent, EventInput, Value, Published}
use octraban_contract.Explorer.Ring
use octraban_contract.Explorer.View.{view}
use octraban_contract.Explorer.View.Laws.{view_laws}
use octraban_contract.Explorer.Spec

module _ (h : Host Value Published) where
  pub event_count-refines :
      (s : h.State) → observe (view h) (Ring.event_count h s) ≡ Spec.event_count (view h s)
  unfolding Ring.event_count Spec.event_count
  event_count-refines s = ground arith

  pub storage_utilisation-refines :
      (s : h.State)
      → observe (view h) (Ring.storage_utilisation h s) ≡ Spec.storage_utilisation (view h s)
  unfolding Ring.storage_utilisation Spec.storage_utilisation
  storage_utilisation-refines s = ground arith

  pub get_event-refines :
      (seq : ℕ) (s : h.State)
      → observe (view h) (Ring.get_event h seq s) ≡ Spec.get_event seq (view h s)
  unfolding Ring.get_event Spec.get_event
  get_event-refines seq s = grind (arith, view_laws)

  -- The loop, with fuel for the numbers that are left, appends what is live up to the page size.
  get_events_loop_lem :
      (n clamped capacity : ℕ) (out : List DecodedEvent) (seq total : ℕ) (s : h.State)
      → capacity ≢ 0
      → total ≡ seq + n
      → Ring.get_events_loop h n clamped total capacity out seq s
        ≡ done (out ++ take (clamped - length out) (Spec.live (view h s).log capacity seq n)) s
  unfolding Ring.get_events_loop Spec.live
  get_events_loop_lem zero clamped capacity out seq total s ne e =
      ground (arith, take-nil DecodedEvent (clamped - length out), append-nil out)
  get_events_loop_lem (suc n) clamped capacity out seq total s ne e =
      elim (dec_lt (length out) clamped) [
        | no full ↦ ground (
          arith,
          take-eq-nil (clamped - length out) (Spec.live (view h s).log capacity seq (suc n)),
          append-nil out,
        )
        | yes room ↦ elim (Option-cases ((view h s).log (seq % capacity))) [
          | inl empty ↦
              ground (arith, get_events_loop_lem n clamped capacity out (seq + 1) total s ne)
          | inr (ev, found) ↦ ground (
            arith,
            get_events_loop_lem n clamped capacity out (seq + 1) total s ne,
            get_events_loop_lem n clamped capacity (out ++ (ev ∷ [])) (seq + 1) total s ne,
            length-append out (ev ∷ []),
            append_assoc out (ev ∷ []) (
                take (clamped - length (out ++ (ev ∷ [])))
                  (Spec.live (view h s).log capacity (seq + 1) n)),
            take-cons (clamped - length out) (clamped - length (out ++ (ev ∷ []))) ev
                (Spec.live (view h s).log capacity (seq + 1) n),
          )
        ]
      ]

  get_events_loop_zero :
      (n clamped capacity seq total : ℕ) (s : h.State)
      → 0 < clamped
      → capacity ≡ 0
      → seq < total
      → total ≡ seq + n
      → Ring.get_events_loop h n clamped total capacity [] seq s ≡ trap
  unfolding Ring.get_events_loop
  get_events_loop_zero zero clamped capacity seq total s pos e lt t = absurd (omega arith)
  get_events_loop_zero (suc n) clamped capacity seq total s pos e lt t = ground arith

  get_events_loop_idle :
      (n clamped capacity seq total : ℕ) (s : h.State)
      → n ≡ 0
      → total ≤ seq
      → Ring.get_events_loop h n clamped total capacity [] seq s
        ≡ done (take clamped (Spec.live (view h s).log capacity seq n)) s
  unfolding Ring.get_events_loop Spec.live
  get_events_loop_idle zero clamped capacity seq total s e ge =
      ground (arith, take-nil DecodedEvent clamped)
  get_events_loop_idle (suc n) clamped capacity seq total s e ge = absurd (omega arith)

  -- The loop as `get_events` calls it: it traps on a zero capacity if it runs at all.
  get_events_page :
      (clamped capacity start total : ℕ) (s : h.State)
      → 0 < clamped
      → Ring.get_events_loop h (total - start) clamped total capacity [] start s ≡ (
          if capacity == 0 && ltb start total
          then trap
          else done (take clamped (Spec.live (view h s).log capacity start (total - start))) s)
  get_events_page clamped capacity start total s pos = elim (dec_lt start total) [
    | yes lt ↦ elim (ℕ_discrete capacity 0) [
      | yes e ↦ ground (
        arith,
        get_events_loop_zero (total - start) clamped capacity start total s pos e lt (omega arith),
      )
      | no ne ↦ ground (
        arith,
        get_events_loop_lem (total - start) clamped capacity [] start total s ne (omega arith),
      )
    ]
    | no ge ↦ ground (
      arith,
      get_events_loop_idle (total - start) clamped capacity start total s (omega arith)
          (omega arith),
    )
  ]

  pub get_events-refines :
      (cursor limit : ℕ) (s : h.State)
      → observe (view h) (Ring.get_events h cursor limit s)
        ≡ Spec.get_events cursor limit (view h s)
  unfolding Ring.get_events Spec.get_events
  get_events-refines cursor limit s =
      let v = view h s in
      ground (
        arith,
        get_events_page (min limit 500) (Spec.capacity_of v) (Spec.start_of v cursor)
            (Spec.total_of v) s,
      )

module _ (h : Host Value Published) (ctx : Invocation) (caller : Address) where
  pub set_max_events-refines :
      (new_max : ℕ) (s : h.State)
      → observe (view h) (Ring.set_max_events h ctx caller new_max s)
        ≡ Spec.set_max_events ctx caller new_max (view h s)
  unfolding Ring.set_max_events Spec.set_max_events
  set_max_events-refines new_max s = grind (arith, view_laws)

  pub submit_event-refines :
      (input : EventInput) (s : h.State)
      → observe (view h) (Ring.submit_event h ctx caller input s)
        ≡ Spec.submit_event ctx caller input (view h s)
  unfolding Ring.submit_event Spec.submit_event
  submit_event-refines input s = grind (arith, append_assoc, view_laws)
