-- ===== src/Explorer/Safety/Reads.antt =====
-- The reads of the contract change nothing but the time to live of what they read.
use octraban_contract.Common.{ℕ, ◌≡◌, Bool, true, false, List, arith}
use octraban_contract.Host.{done, Invocation}
use octraban_contract.Explorer.Types.{DecodedEvent}
use octraban_contract.Explorer.Contract.{Call, discard-done}
use octraban_contract.Explorer.View.{View}
use octraban_contract.Explorer.Spec

abbrev pub is_read : Call → Bool
is_read Call.storage_utilisation = true
is_read Call.is_paused = true
is_read Call.event_count = true
is_read (Call.get_contract _) = true
is_read (Call.get_latest_contract _) = true
is_read (Call.get_contract_version _ _) = true
is_read (Call.get_event _) = true
is_read (Call.get_events _ _) = true
is_read _ = false

get_event-view :
    (n : ℕ) (v : View) {e : DecodedEvent} {v' : View} → Spec.get_event n v ≡ done e v' → v' ≡ v
unfolding Spec.get_event
get_event-view n v = grind arith

pub get_events-view :
    (c l : ℕ) (v : View) {es : List DecodedEvent} {v' : View}
    → Spec.get_events c l v ≡ done es v'
    → v' ≡ v
unfolding Spec.get_events
get_events-view c l v = grind arith

pub read-view :
    (ctx : Invocation) (c : Call) (v v' : View) {r : Unit {0}}
    → is_read c ≡ true
    → Spec.invoke ctx c v ≡ done r v'
    → v' ≡ v
unfolding Spec.invoke
read-view ctx (Call.init _ _) v v' t e = cc
read-view ctx (Call.get_event n) v v' t e =
    get_event-view n v (discard-done (Spec.get_event n) v e).1
read-view ctx (Call.get_events c l) v v' t e =
    get_events-view c l v (discard-done (Spec.get_events c l) v e).1
read-view ctx _ v v' t e = ground arith
