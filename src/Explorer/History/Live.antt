-- ===== src/Explorer/History/Live.antt =====
-- While the capacity stays what it was, the ring buffer holds exactly the latest events, each in the
-- slot that its number gives.
use native.Mathlib.Decide.{ℕ_discrete, dec_lt}
use native.Mathlib.Nat.{div-add-mod, add-mod_right}
use octraban_contract.Common.{
  ℕ, ◌+◌, ◌%◌, ◌≤◌, ◌<◌, ◌≡◌, ◌≢◌, Bool, true, false, none, some, Option, List, [], ◌∷◌, ◌++◌,
  length, get_elem?, get_elem?-append_left, get_elem?-append_length, get_elem?-lt, length-append,
  arith, refl, ◌∙◌, Option-cases, inl, inr,
}
use octraban_contract.Host.{done, Invocation}
use octraban_contract.Explorer.Types.{DecodedEvent, EventInput}
use octraban_contract.Explorer.Contract.{Call}
use octraban_contract.Explorer.View.{View, update}
use octraban_contract.Explorer.Spec
use octraban_contract.Explorer.History.{archive}
use octraban_contract.Explorer.History.Frame.{
  SameRing, invoke-SameRing, Submitted, submit_event-Submitted,
}
use octraban_contract.Explorer.History.Sound.{IsSound, invoke-IsSound}

pub record IsLive (m : ℕ) (hist : List DecodedEvent) (v : View) : Type 0 where
  pub sound : IsSound hist v
  pub opened : v.owner ≢ none
  pub capacity : Spec.capacity_of v ≡ m
  pub placed :
      (i : ℕ) (e : DecodedEvent) → v.log i ≡ some e → (e.seq % m ≡ i) × (length hist ≤ e.seq + m)
  pub present :
      (n : ℕ) (e : DecodedEvent)
      → get_elem? hist n ≡ some e
      → length hist ≤ n + m
      → v.log (n % m) ≡ some e

-- Two numbers less than `m` apart have different slots.
pub mod-ne : (m n k : ℕ) → n < k → k < n + m → n % m ≢ k % m
mod-ne m n k lt near e = grind (arith, div-add-mod n m, div-add-mod k m)

module _ (m : ℕ) (hist : List DecodedEvent) (log : ℕ → Option DecodedEvent) (x : DecodedEvent)
    (fresh : x.seq ≡ length hist) (roomy : m ≢ 0) where
  placed-update :
      ((i : ℕ) (e : DecodedEvent) → log i ≡ some e → (e.seq % m ≡ i) × (length hist ≤ e.seq + m))
      → (i : ℕ) (e : DecodedEvent) → update log (length hist % m) (some x) i ≡ some e
      → (e.seq % m ≡ i) × (length hist + 1 ≤ e.seq + m)
  placed-update placed i e found = elim (ℕ_discrete (length hist % m) i) [
    | yes p ↦ ground arith
    | no p ↦ ground (arith, placed i e, add-mod_right e.seq m)
  ]

  present-update :
      ((n : ℕ) (e : DecodedEvent)
        → get_elem? hist n ≡ some e
        → length hist ≤ n + m
        → log (n % m) ≡ some e)
      → (n : ℕ) (e : DecodedEvent) → get_elem? (hist ++ (x ∷ [])) n ≡ some e
      → length hist + 1 ≤ n + m
      → update log (length hist % m) (some x) (n % m) ≡ some e
  present-update present n e found near = elim (dec_lt n (length hist)) [
    | yes lt ↦
        ground (
          arith,
          present n e,
          mod-ne m n (length hist) lt,
          get_elem?-append_left hist (x ∷ []) n lt,
        )
    | no ge ↦ ground (
      arith,
      get_elem?-lt (hist ++ (x ∷ [])) n found,
      length-append hist (x ∷ []),
      get_elem?-append_length hist [] x n,
    )
  ]

submit_event-IsLive :
    (a m : ℕ) (hist : List DecodedEvent) (input : EventInput) (v v' : View)
    → Submitted a input v v'
    → IsSound (archive (Call.submit_event a input) hist) v'
    → IsLive m hist v
    → IsLive m (archive (Call.submit_event a input) hist) v'
submit_event-IsLive a m hist input v v' sub sound' live =
    let x = Spec.decoded (length hist) input in
    let grown : length (hist ++ (x ∷ [])) ≡ length hist + 1 = length-append hist (x ∷ []) in
    let roomy : m ≢ 0 = λ z. live.sound.roomy (live.capacity ∙ z) in
    let written : v'.log ≡ update v.log (length hist % m) (some x) =
      rw (← live.sound.counted, ← live.capacity) sub.log in
    record {
      sound = sound';
      opened = ground arith;
      capacity = ground arith;
      placed = λ i e found.
          rw grown (placed-update m hist v.log x refl roomy live.placed i e (rw written at found));
      present = λ n e found near.
          rw written
            (present-update m hist v.log x refl roomy live.present n e found (rw grown at near));
    }

SameRing-IsLive :
    (m : ℕ) (hist : List DecodedEvent) (v v' : View)
    → SameRing v v'
    → IsSound hist v'
    → IsLive m hist v
    → IsLive m hist v'
SameRing-IsLive m hist v v' same sound' live = record {
  sound = sound';
  opened = λ e. live.opened (same.owner e);
  capacity = ground arith;
  placed = λ i e found. live.placed i e (ground arith);
  present = λ n e found near. ground (arith, live.present n e found near);
}

abbrev pub resizes : Call → Bool
resizes (Call.set_max_events _ _) = true
resizes _ = false

init-opened : (a n : ℕ) (v v' : View) → v.owner ≢ none → Spec.init a n v ≡ done tt v' → ⊥
unfolding Spec.init
init-opened a n v v' opened e = elim (Option-cases v.owner) [
  | inl closed ↦ opened closed
  | inr (b, held) ↦ ground arith
]

-- Every successful call but a change of the capacity keeps the ring buffer exact.
pub invoke-IsLive :
    (ctx : Invocation) (c : Call) (m : ℕ) (hist : List DecodedEvent) (v v' : View)
    → resizes c ≡ false
    → Spec.invoke ctx c v ≡ done tt v'
    → IsLive m hist v
    → IsLive m (archive c hist) v'
unfolding Spec.invoke
invoke-IsLive ctx (Call.init a n) m hist v v' t e live = absurd (init-opened a n v v' live.opened e)
invoke-IsLive ctx (Call.set_max_events a n) m hist v v' t e live = cc
invoke-IsLive ctx (Call.submit_event a i) m hist v v' t e live =
    submit_event-IsLive a m hist i v v' (submit_event-Submitted ctx a i v v' e)
      (invoke-IsSound ctx (Call.submit_event a i) hist v v' e live.sound) live
invoke-IsLive ctx c m hist v v' t e live =
    SameRing-IsLive m hist v v' (invoke-SameRing ctx c v v' refl e)
      (invoke-IsSound ctx c hist v v' e live.sound) live
