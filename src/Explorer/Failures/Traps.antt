-- ===== src/Explorer/Failures/Traps.antt =====
-- explorer/src/lib.rs: why an invocation traps after any sequence of invocations.
use octraban_contract.Common.{
  ◌+◌, ◌^◌, ◌<◌, ◌≤◌, ◌≡◌, ◌≢◌, true, false, List, [], ◌∷◌, length, arith, length-append,
}
use octraban_contract.Host.{Outcome, done, panic, trap, diverge, Host, Invocation}
use octraban_contract.Explorer.Types.{Error, DecodedEvent, Value, Published}
use octraban_contract.Explorer.Contract.{Call, invoke, commit, run}
use octraban_contract.Explorer.View.{View, view}
use octraban_contract.Explorer.Spec
use octraban_contract.Explorer.History.{archive, archive_if, recorded}
use octraban_contract.Explorer.History.Run.{IsFresh, IsFresh-IsSound, run-IsSound}
use octraban_contract.Explorer.Failures.{exhausted, unready, explained-invoke}

length-archive : (c : Call) (hist : List DecodedEvent) → length (archive c hist) ≤ length hist + 1
length-archive (Call.submit_event a i) hist =
    ground (arith, length-append hist (Spec.decoded (length hist) i ∷ []))
length-archive c hist = omega arith

length-archive_if :
    {S A : Type 0} (o : Outcome Error S A) (c : Call) (hist : List DecodedEvent)
    → length (archive_if o c hist) ≤ length hist + 1
length-archive_if (done a s) c hist = length-archive c hist
length-archive_if (panic e) c hist = omega arith
length-archive_if trap c hist = omega arith
length-archive_if diverge c hist = omega arith

-- A call submits one event at most.
length-recorded :
    (h : Host Value Published) (cs : List (Invocation × Call)) (s : h.State)
    (hist : List DecodedEvent)
    → length (recorded h cs s hist) ≤ length hist + length cs
unfolding recorded
length-recorded h [] s hist = omega arith
length-recorded h ((ctx, c) ∷ cs) s hist =
    let o = invoke h ctx c s in
    let later = length-recorded h cs (commit o s) (archive_if o c hist) in
    let first = length-archive_if o c hist in omega (arith, later, first)

roomy_not_exhausted :
    (c : Call) (v : View)
    → Spec.capacity_of v ≢ 0
    → Spec.total_of v + 1 < 2 ^ 64
    → exhausted c v ≡ false
unfolding exhausted
roomy_not_exhausted c v roomy small = ground arith

-- After fewer than 2^64 - 1 invocations of a new contract, whoever made them and however they ended,
-- the ring is never the cause of a trap: an invocation traps only when the address that it names has
-- not authorised it, when there is no admin yet, when an update is at the last ABI version of a
-- `u32`, or when the code of an upgrade was not uploaded. Failures of the host by its resource limits
-- or by an archived entry are outside the model.
pub run_traps :
    (h : Host Value Published) (cs : List (Invocation × Call)) (ctx : Invocation) (c : Call)
    (s : h.State)
    → IsFresh (view h s)
    → length cs + 1 < 2 ^ 64
    → invoke h ctx c (run h cs s) ≡ trap
    → unready ctx c (view h (run h cs s)) ≡ true
run_traps h cs ctx c s fresh short trapped =
    let v = view h (run h cs s) in
    let sound = run-IsSound h cs s [] (IsFresh-IsSound (view h s) fresh) in
    let few = length-recorded h cs s [] in
    let calm = roomy_not_exhausted c v sound.roomy (omega (arith, sound.counted, few, short)) in
    ground (arith, explained-invoke h ctx c (run h cs s), calm, trapped)
