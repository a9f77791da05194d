-- ===== src/Explorer/History.antt =====
-- The events that were submitted, in order, as the specification of what the ring buffer holds.
pub mod Frame
pub mod Sound
pub mod Run
pub mod Live
pub mod Window
pub mod Exact
pub mod Resize
pub mod Pages
pub mod Submit
pub mod Agreement
pub mod Interleaved
pub mod Complete
pub mod Counted
use octraban_contract.Common.{List, [], ◌∷◌, ◌++◌, length}
use octraban_contract.Host.{Outcome, done, panic, trap, diverge, Host, Invocation}
use octraban_contract.Explorer.Types.{Error, DecodedEvent, Value, Published}
use octraban_contract.Explorer.Contract.{Call, invoke, commit}
use octraban_contract.Explorer.Spec

-- The history after a call that ended well: a submission adds its event, under the next number.
abbrev pub archive : Call → List DecodedEvent → List DecodedEvent
archive (Call.submit_event _ input) hist = hist ++ (Spec.decoded (length hist) input ∷ [])
archive _ hist = hist

abbrev pub archive_if :
    {S A : Type 0} → Outcome Error S A → Call → List DecodedEvent → List DecodedEvent
archive_if (done _ _) c hist = archive c hist
archive_if (panic _) c hist = hist
archive_if trap c hist = hist
archive_if diverge c hist = hist

-- The history after a sequence of invocations.
unfoldable pub recorded :
    (h : Host Value Published)
    → List (Invocation × Call)
    → h.State
    → List DecodedEvent
    → List DecodedEvent
recorded h [] s hist = hist
recorded h ((ctx, c) ∷ cs) s hist =
    let o = invoke h ctx c s in recorded h cs (commit o s) (archive_if o c hist)
