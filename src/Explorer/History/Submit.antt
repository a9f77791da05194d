-- ===== src/Explorer/History/Submit.antt =====
-- A submission that is in order is accepted, and its event can be read at once.
use octraban_contract.Common.{
  ℕ, ◌+◌, ◌%◌, ◌^◌, ◌<◌, ◌≡◌, ◌≢◌, ◌∙◌, false, true, some, str_eq, unwrap_or, arith,
}
use octraban_contract.Host.{Outcome, done, panic, trap, diverge, Host, Invocation}
use octraban_contract.Host.Observe.{observe}
use octraban_contract.Explorer.Types.{Error, EventInput, Value, Published}
use octraban_contract.Explorer.Ring
use octraban_contract.Explorer.View.{View, view, update}
use octraban_contract.Explorer.Spec
use octraban_contract.Explorer.Refine.{submit_event-refines, get_event-refines}
use octraban_contract.Explorer.History.Frame.{Submitted, submit_event-Submitted}

-- The outcome of which an observation is seen.
done-observe :
    {S T A : Type 0} (f : S → T) (o : Outcome Error S A) {a : A} {t : T}
    → observe f o ≡ done a t
    → (s : S) × (o ≡ done a s) × (f s ≡ t)
done-observe f (done b s) e = (s, ground arith, ground arith)
done-observe f (panic x) e = absurd (ground arith)
done-observe f trap e = absurd (ground arith)
done-observe f diverge e = absurd (ground arith)

-- What is visible after an accepted submission.
abbrev accepted : EventInput → View → View
accepted input v =
    let seq = Spec.total_of v in
    Spec.emit (Spec.announced seq (Spec.capacity_of v) input) record v {
      total = some (seq + 1);
      log = update v.log (seq % Spec.capacity_of v) (some (Spec.decoded seq input));
    }

submit_event-done :
    (ctx : Invocation) (a : ℕ) (input : EventInput) (v : View)
    → ctx.authorised a ≡ true
    → str_eq input.function "" ≡ false
    → unwrap_or v.frozen false ≡ false
    → v.owner ≡ some a
    → Spec.capacity_of v ≢ 0
    → Spec.total_of v + 1 < 2 ^ 64
    → (v' : View) × (Spec.submit_event ctx a input v ≡ done tt v')
unfolding Spec.submit_event
submit_event-done ctx a input v signed named running held roomy below =
    (accepted input v, ground arith)

get_event-Submitted :
    (a : ℕ) (input : EventInput) (v v' : View)
    → Submitted a input v v'
    → Spec.get_event (Spec.total_of v) v' ≡ done (Spec.decoded (Spec.total_of v) input) v'
unfolding Spec.get_event
get_event-Submitted a input v v' sub = ground (arith, sub.log, sub.roomy, sub.capacity)

-- A submission with a function name, authorised by the admin of a contract that is not paused, whose
-- capacity is not 0 and whose event number leaves room in 64 bits, succeeds; then `get_event` of its
-- number returns it.
pub get_event-submit_event :
    (h : Host Value Published) (ctx : Invocation) (a : ℕ) (input : EventInput) (s : h.State)
    → ctx.authorised a ≡ true
    → str_eq input.function "" ≡ false
    → unwrap_or (view h s).frozen false ≡ false
    → (view h s).owner ≡ some a
    → Spec.capacity_of (view h s) ≢ 0
    → Spec.total_of (view h s) + 1 < 2 ^ 64
    → (s' : h.State) × (Ring.submit_event h ctx a input s ≡ done tt s')
      × (observe (view h) (Ring.get_event h (Spec.total_of (view h s)) s')
          ≡ done (Spec.decoded (Spec.total_of (view h s)) input) (view h s'))
get_event-submit_event h ctx a input s signed named running held roomy below =
    let (v', ok) = submit_event-done ctx a input (view h s) signed named running held roomy below in
    let (s', ends, seen) =
      done-observe (view h) (Ring.submit_event h ctx a input s)
        (submit_event-refines h ctx a input s ∙ ok) in
    (
      s',
      ends,
      get_event-refines h (Spec.total_of (view h s)) s'
          ∙ get_event-Submitted a input (view h s) (view h s')
              (submit_event-Submitted ctx a input (view h s) (view h s') (rw seen ok)),
    )
