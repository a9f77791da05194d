-- ===== src/Explorer/Safety/Pausing.antt =====
-- What a pause stops, and what it does not.
use octraban_contract.Common.{
  ℕ, min, ◌&&◌, ◌==◌, leb, if◌then◌else◌, sym, ap, ap₂, ◌≡◌, ◌≢◌, Bool, true, false, not, none,
  some, List, arith, refl, Option-cases, inl, inr, ◌∙◌,
}
use octraban_contract.Host.{Outcome, done, panic, trap, diverge, Host, Invocation}
use octraban_contract.Host.Observe.{observe, observe-done}
use octraban_contract.Explorer.Types.{min_max_events, Value, Published}
use octraban_contract.Explorer.Admin
use octraban_contract.Explorer.Ring
use octraban_contract.Explorer.Contract.{Call, commit, run}
use octraban_contract.Explorer.View.{View, view}
use octraban_contract.Explorer.Spec
use octraban_contract.Explorer.Refine.{
  every, run-keeps, pause-refines, set_max_events-refines, storage_utilisation-refines,
}
use octraban_contract.Explorer.Safety.Reads.{read-view}

abbrev pub is_unpause : Call → Bool
is_unpause (Call.unpause _) = true
is_unpause _ = false

-- The contract is paused and has an admin, and its registry, its events and its code are as in `v₀`.
pub record IsFrozenAt (v0 v : View) : Type 0 where
  pub paused : v.frozen ≡ some true
  pub opened : v.owner ≢ none
  pub contracts : v.contracts ≡ v0.contracts
  pub versions : v.versions ≡ v0.versions
  pub log : v.log ≡ v0.log
  pub total : v.total ≡ v0.total
  pub code : v.code ≡ v0.code

spec-IsFrozenAt :
    (v0 : View) (ctx : Invocation) (c : Call) (v v' : View)
    → not (is_unpause c) ≡ true
    → Spec.invoke ctx c v ≡ done tt v'
    → IsFrozenAt v0 v
    → IsFrozenAt v0 v'
unfolding Spec.invoke
spec-IsFrozenAt v0 ctx (Call.init a n) v v' t e p = elim (Option-cases v.owner) [
  | inl closed ↦ absurd (p.opened closed)
  | inr (b, held) ↦ ground arith
]
spec-IsFrozenAt v0 ctx (Call.get_event n) v v' t e p =
    rw (read-view ctx (Call.get_event n) v v' refl e) p
spec-IsFrozenAt v0 ctx (Call.get_events c l) v v' t e p =
    rw (read-view ctx (Call.get_events c l) v v' refl e) p
spec-IsFrozenAt v0 ctx _ v v' t e p = ground arith

-- Until somebody calls `unpause`, a paused contract that has an admin stays paused and keeps its
-- registry with all its history, its events, their number and its code, whatever is called.
pub paused_keeps :
    (h : Host Value Published) (cs : List (Invocation × Call)) (s : h.State)
    → every (λ _ c. not (is_unpause c)) cs ≡ true
    → (view h s).frozen ≡ some true
    → (view h s).owner ≢ none
    → IsFrozenAt (view h s) (view h (run h cs s))
paused_keeps h cs s t paused opened =
    run-keeps h (IsFrozenAt (view h s)) (λ _ c. not (is_unpause c)) (spec-IsFrozenAt (view h s)) cs
      s t
      record {
        paused = paused;
        opened = opened;
        contracts = refl;
        versions = refl;
        log = refl;
        total = refl;
        code = refl;
      }

abbrev pub succeeds : {E S A : Type 0} → Outcome E S A → Bool
succeeds (done _ _) = true
succeeds (panic _) = false
succeeds trap = false
succeeds diverge = false

succeeds-observe :
    {E S T A : Type 0} (f : S → T) (o : Outcome E S A) → succeeds (observe f o) ≡ succeeds o
succeeds-observe f (done a s) = refl
succeeds-observe f (panic e) = refl
succeeds-observe f trap = refl
succeeds-observe f diverge = refl

commit-observe :
    {E S T A : Type 0} (f : S → T) (o : Outcome E S A) (s : S)
    → commit (observe f o) (f s) ≡ f (commit o s)
commit-observe f (done a s') s = refl
commit-observe f (panic e) s = refl
commit-observe f trap s = refl
commit-observe f diverge s = refl

-- What `set_max_events` demands of a caller, where `p` is the admin.
abbrev pub allowed : Invocation → ℕ → ℕ → ℕ → Bool
allowed ctx p a n = ctx.authorised a && a == p && leb min_max_events n

-- The capacity after `set_max_events`.
abbrev pub resized : Bool → ℕ → View → ℕ
resized b n v = if b then n else Spec.capacity_of v

set_max_events-set_paused :
    (ctx ctx' : Invocation) (p a n : ℕ) (v v' : View) {r : Unit {0}}
    → Spec.set_paused ctx p true v ≡ done r v'
    → let o = Spec.set_max_events ctx' a n v' in
      let w = commit o v' in
      (succeeds o ≡ allowed ctx' p a n)
      × (Spec.capacity_of w ≡ resized (allowed ctx' p a n) n v)
      × (Spec.total_of w ≡ Spec.total_of v)
unfolding Spec.set_paused Spec.set_max_events
set_max_events-set_paused ctx ctx' p a n v v' e = (ground arith, ground arith, ground arith)

-- A pause does not stop `set_max_events`, nor let more callers through. In the state after a
-- successful `pause` by `p`, whoever calls it: it succeeds exactly if the caller has authorised it,
-- is `p`, and asks for at least 1000; after that `storage_utilisation` returns the number asked for
-- as the capacity if it succeeded, else the capacity before the pause, and the number of events
-- before the pause, cut off at that.
pub set_max_events-pause :
    (h : Host Value Published) (ctx ctx' : Invocation) (p a n : ℕ) (s s' : h.State) {r : Unit {0}}
    → Admin.pause h ctx p s ≡ done r s'
    → let o = Ring.set_max_events h ctx' a n s' in
      let capacity = resized (allowed ctx' p a n) n (view h s) in
      (succeeds o ≡ allowed ctx' p a n)
      × (observe (view h) (Ring.storage_utilisation h (commit o s'))
          ≡ done (min (Spec.total_of (view h s)) capacity, capacity) (view h (commit o s')))
unfolding Spec.storage_utilisation
set_max_events-pause h ctx ctx' p a n s s' e =
    let o = Ring.set_max_events h ctx' a n s' in
    let same = set_max_events-refines h ctx' a n s' in
    let (ends, capacity, total) =
      set_max_events-set_paused ctx ctx' p a n (view h s) (view h s')
        (observe-done (view h) (Admin.pause h ctx p s) _ (pause-refines h ctx p s) e) in
    let seen = ap (λ q. commit q (view h s')) (sym same) ∙ commit-observe (view h) o s' in
    (
      sym (succeeds-observe (view h) o) ∙ ap succeeds same ∙ ends,
      storage_utilisation-refines h (commit o s')
          ∙ ap₂ (λ k c. done (min k c, c) (view h (commit o s')))
              (ap Spec.total_of (sym seen) ∙ total) (ap Spec.capacity_of (sym seen) ∙ capacity),
    )
