-- ===== src/Explorer/Tests/Lifetimes.antt =====
-- The model host with a clock, and the tests of the storage lifetimes on it.
use octraban_contract.Common.{ℕ, ◌-◌, ◌≡◌, true, Option, none, some, refl, arith}
use octraban_contract.Host.Model.{grant, same_lease_self}
use octraban_contract.Host.{persistent_slot, entry_lease}
use octraban_contract.Host.Script.{passes}
use octraban_contract.Explorer.Types.{DataKey, Value}
use octraban_contract.Explorer.UnitTests.{
  Clock, lifetime_tests_pass, test_event_survives_past_min_floor_and_get_event_extends_it,
}
use octraban_contract.Explorer.Tests.Model.{host, keys, fresh}

abbrev later : ℕ → host.State → host.State
later k s = record s { leases = λ l. s.leases l - k }

granted :
    (key : DataKey) (o : Option (Value key)) (s : host.State)
    → o ≡ none
    → grant keys (persistent_slot key) o s.leases (entry_lease key) ≡ 4096
granted key none s absent = rw (same_lease_self keys (entry_lease key))
granted key (some v) s absent = cc

clock : Clock host later 4096
clock = record {
  get-advance = λ p k s lt. refl;
  ttl-advance = λ l k s. refl;
  ttl-set_instance = λ key v s. refl;
  ttl-set_new = λ key v s absent. granted key _ s absent;
}

event_survives :
    passes (test_event_survives_past_min_floor_and_get_event_extends_it host later 7 fresh) ≡ true
event_survives =
    (lifetime_tests_pass host later 4096 7 clock (omega arith) fresh refl (omega arith)).5
