-- ===== src/Explorer/History/Sound.antt =====
-- No event of the ring buffer is ever altered: whatever a slot holds is the event that was
-- submitted under its number, after any sequence of invocations.
use native.Mathlib.Decide.{ℕ_discrete, dec_lt}
use octraban_contract.Common.{
  refl, ◌%◌, Option, ℕ, ◌≡◌, ◌≢◌, none, some, List, [], length, get_elem?, arith,
  get_elem?-append_left, get_elem?-append_length, get_elem?-lt, length-append, ◌∷◌, ◌++◌, ℕ,
}
use octraban_contract.Host.{done, Invocation}
use octraban_contract.Explorer.Types.{DecodedEvent, EventInput}
use octraban_contract.Explorer.Contract.{Call}
use octraban_contract.Explorer.View.{View, update}
use octraban_contract.Explorer.Spec
use octraban_contract.Explorer.History.{archive}
use octraban_contract.Explorer.History.Frame.{
  Submitted, submit_event-Submitted, invoke-SameRing, SameRing,
}

pub record IsSound (hist : List DecodedEvent) (v : View) : Type 0 where
  pub counted : Spec.total_of v ≡ length hist
  pub roomy : Spec.capacity_of v ≢ 0
  pub stored : (i : ℕ) (e : DecodedEvent) → v.log i ≡ some e → get_elem? hist e.seq ≡ some e
  pub numbered : (n : ℕ) (e : DecodedEvent) → get_elem? hist n ≡ some e → e.seq ≡ n
  pub unopened : v.owner ≡ none → hist ≡ []

SameRing-IsSound :
    (hist : List DecodedEvent) (v v' : View) → SameRing v v' → IsSound hist v → IsSound hist v'
SameRing-IsSound hist v v' same sound = grind arith

-- Writing the event that is appended keeps every slot in agreement with the history.
stored-update :
    (hist : List DecodedEvent) (x : DecodedEvent) (log : ℕ → Option DecodedEvent) (slot i : ℕ)
    (e : DecodedEvent)
    → x.seq ≡ length hist
    → ((j : ℕ) (old : DecodedEvent) → log j ≡ some old → get_elem? hist old.seq ≡ some old)
    → update log slot (some x) i ≡ some e
    → get_elem? (hist ++ (x ∷ [])) e.seq ≡ some e
stored-update hist x log slot i e fresh stored found = elim (ℕ_discrete slot i) [
  | yes p ↦ ground (arith, get_elem?-append_length hist [] x e.seq)
  | no p ↦ ground (
    arith,
    stored i e,
    get_elem?-lt hist e.seq {a = e},
    get_elem?-append_left hist (x ∷ []) e.seq,
  )
]

numbered-append :
    (hist : List DecodedEvent) (x : DecodedEvent) (n : ℕ) (e : DecodedEvent)
    → x.seq ≡ length hist
    → ((k : ℕ) (old : DecodedEvent) → get_elem? hist k ≡ some old → old.seq ≡ k)
    → get_elem? (hist ++ (x ∷ [])) n ≡ some e
    → e.seq ≡ n
numbered-append hist x n e fresh numbered found = elim (dec_lt n (length hist)) [
  | yes lt ↦ ground (arith, numbered n e, get_elem?-append_left hist (x ∷ []) n lt)
  | no ge ↦ ground (
    arith,
    get_elem?-lt (hist ++ (x ∷ [])) n found,
    length-append hist (x ∷ []),
    get_elem?-append_length hist [] x n,
  )
]

module _ (ctx : Invocation) (a : ℕ) (hist : List DecodedEvent) (v v' : View) where
  init-IsSound : (n : ℕ) → Spec.init a n v ≡ done tt v' → IsSound hist v → IsSound hist v'
  unfolding Spec.init
  init-IsSound n e sound = record {
    counted = ground (arith, sound.unopened);
    roomy = ground arith;
    stored = ground (arith, sound.stored);
    numbered = sound.numbered;
    unopened = ground arith;
  }

  set_max_events-IsSound :
      (n : ℕ) → Spec.set_max_events ctx a n v ≡ done tt v' → IsSound hist v → IsSound hist v'
  unfolding Spec.set_max_events
  set_max_events-IsSound n e sound = grind arith

  submit_event-IsSound :
      (input : EventInput)
      → Submitted a input v v'
      → IsSound hist v
      → IsSound (hist ++ (Spec.decoded (length hist) input ∷ [])) v'
  submit_event-IsSound input sub sound = record {
    counted = ground (arith, length-append hist (Spec.decoded (length hist) input ∷ []));
    roomy = ground arith;
    stored = λ i e found.
        stored-update hist (Spec.decoded (length hist) input) v.log
          (Spec.total_of v % Spec.capacity_of v) i e refl sound.stored (ground arith);
    numbered = λ n e found.
        numbered-append hist (Spec.decoded (length hist) input) n e refl sound.numbered found;
    unopened = λ none_. ground arith;
  }

-- Every successful invocation keeps the ring buffer in agreement with the history.
pub invoke-IsSound :
    (ctx : Invocation) (c : Call) (hist : List DecodedEvent) (v v' : View)
    → Spec.invoke ctx c v ≡ done tt v'
    → IsSound hist v
    → IsSound (archive c hist) v'
unfolding Spec.invoke
invoke-IsSound ctx (Call.init a n) hist v v' e sound = init-IsSound ctx a hist v v' n e sound
invoke-IsSound ctx (Call.set_max_events a n) hist v v' e sound =
    set_max_events-IsSound ctx a hist v v' n e sound
invoke-IsSound ctx (Call.submit_event a i) hist v v' e sound =
    submit_event-IsSound ctx a hist v v' i (submit_event-Submitted ctx a i v v' e) sound
invoke-IsSound ctx c hist v v' e sound =
    SameRing-IsSound hist v v' (invoke-SameRing ctx c v v' refl e) sound
