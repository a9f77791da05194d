-- ===== src/Explorer/History/Counted.antt =====
-- What the two counters of the ring report, also after changes of the capacity.
use octraban_contract.Common.{ℕ, ◌^◌, ◌<◌, List, [], ◌∷◌, ◌==◌, if◌then◌else◌}
use octraban_contract.Host.{Outcome, done, panic, trap, diverge, Host, Invocation}
use octraban_contract.Explorer.Types.{Error, default_max_events, Value, Published}
use octraban_contract.Explorer.Ring
use octraban_contract.Explorer.Contract.{Call, invoke, commit}
use octraban_contract.Explorer.View.{View}
use octraban_contract.Explorer.Spec

-- The counter is a `u64`.
IsCounter : View → Type 0
IsCounter v = Spec.total_of v < 2 ^ 64

-- The capacity after a call that ended well, by what it asked for.
abbrev pub settle : Call → ℕ → ℕ
settle (Call.init _ n) capacity = if n == 0 then default_max_events else n
settle (Call.set_max_events _ n) capacity = n
settle _ capacity = capacity

abbrev pub settle_if : {S A : Type 0} → Outcome Error S A → Call → ℕ → ℕ
settle_if (done _ _) c capacity = settle c capacity
settle_if (panic _) c capacity = capacity
settle_if trap c capacity = capacity
settle_if diverge c capacity = capacity

-- The capacity that the last call that sets one asked for, of those that ended well.
unfoldable pub settled : (h : Host Value Published) → List (Invocation × Call) → h.State → ℕ → ℕ
settled h [] s capacity = capacity
settled h ((ctx, c) ∷ cs) s capacity =
    let o = invoke h ctx c s in settled h cs (commit o s) (settle_if o c capacity)
