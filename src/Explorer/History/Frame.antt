-- ===== src/Explorer/History/Frame.antt =====
-- Which calls leave the ring buffer alone.
use octraban_contract.Common.{
  refl, ◌==◌, if◌then◌else◌, ℕ, ◌≡◌, Bool, true, false, none, some, ◌+◌, ◌%◌, ◌≢◌, arith,
}
use octraban_contract.Host.{done, Invocation}
use octraban_contract.Explorer.Contract.{Call}
use octraban_contract.Explorer.Types.{default_max_events, EventInput}
use octraban_contract.Explorer.View.{View, update}
use octraban_contract.Explorer.Spec
use octraban_contract.Explorer.Safety.Reads.{read-view}

-- The calls that write the ring buffer, its counter or its capacity.
abbrev pub touches_ring : Call → Bool
touches_ring (Call.init _ _) = true
touches_ring (Call.set_max_events _ _) = true
touches_ring (Call.submit_event _ _) = true
touches_ring _ = false

pub record SameRing (v v' : View) : Type 0 where
  pub total : v'.total ≡ v.total
  pub capacity : v'.capacity ≡ v.capacity
  pub log : v'.log ≡ v.log
  pub owner : v'.owner ≡ none → v.owner ≡ none

SameRing-of_eq : (v v' : View) → v' ≡ v → SameRing v v'
SameRing-of_eq v v' e = grind arith

pub invoke-SameRing :
    (ctx : Invocation) (c : Call) (v v' : View) {r : Unit {0}}
    → touches_ring c ≡ false
    → Spec.invoke ctx c v ≡ done r v'
    → SameRing v v'
unfolding Spec.invoke
invoke-SameRing ctx (Call.init _ _) v v' t e = cc
invoke-SameRing ctx (Call.set_max_events _ _) v v' t e = cc
invoke-SameRing ctx (Call.submit_event _ _) v v' t e = cc
invoke-SameRing ctx (Call.get_event n) v v' t e =
    SameRing-of_eq v v' (read-view ctx (Call.get_event n) v v' refl e)
invoke-SameRing ctx (Call.get_events c l) v v' t e =
    SameRing-of_eq v v' (read-view ctx (Call.get_events c l) v v' refl e)
invoke-SameRing ctx _ v v' t e = ground arith

-- What an accepted submission does to the ring.
pub record Submitted (a : ℕ) (input : EventInput) (v v' : View) : Type 0 where
  pub owner : v.owner ≡ some a
  pub same_owner : v'.owner ≡ v.owner
  pub roomy : Spec.capacity_of v ≢ 0
  pub capacity : v'.capacity ≡ v.capacity
  pub total : v'.total ≡ some (Spec.total_of v + 1)
  pub log :
      v'.log
      ≡ update v.log
          (Spec.total_of v % Spec.capacity_of v)
          (some (Spec.decoded (Spec.total_of v) input))

pub submit_event-Submitted :
    (ctx : Invocation) (a : ℕ) (input : EventInput) (v v' : View) {r : Unit {0}}
    → Spec.submit_event ctx a input v ≡ done r v'
    → Submitted a input v v'
unfolding Spec.submit_event
submit_event-Submitted ctx a input v v' e = grind arith

-- What a successful initialisation does to the ring.
pub record Opened (a n : ℕ) (v v' : View) : Type 0 where
  pub unopened : v.owner ≡ none
  pub owner : v'.owner ≡ some a
  pub total : v'.total ≡ some 0
  pub capacity : v'.capacity ≡ some (if n == 0 then default_max_events else n)
  pub log : v'.log ≡ v.log

pub init-Opened :
    (a n : ℕ) (v v' : View) {r : Unit {0}} → Spec.init a n v ≡ done r v' → Opened a n v v'
unfolding Spec.init
init-Opened a n v v' e = ground arith
