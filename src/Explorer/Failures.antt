-- ===== src/Explorer/Failures.antt =====
-- Why an invocation of the explorer fails: the errors that docs/INTERFACE.md gives each entry point,
-- with their causes in the storage, and the causes of a trap.
pub mod Traps
use octraban_contract.Common.{
  ℕ, ◌+◌, ◌-◌, ◌%◌, ◌^◌, ◌<◌, ◌≤◌, ◌≡◌, ◌≢◌, ◌∙◌, max, Bool, true, false, not, ◌&&◌, ◌||◌, Option,
  none, some, List, [], ◌∷◌, length, ◌==◌, ltb, leb, str_eq, is_some, unwrap_or, sym, ap, refl,
  arith, length-append, subst,
}
use octraban_contract.Host.{Outcome, done, panic, trap, diverge, Action, Host, Invocation}
use octraban_contract.Host.Observe.{observe}
use octraban_contract.Explorer.Types.{
  Error, not_found, unauthorized, already_exists, below_floor, contract_paused, invalid_input,
  unsupported, Address, Bytes32, min_max_events, DecodedEvent, Value, Published,
}
use octraban_contract.Explorer.Contract.{Call, discard, invoke, commit, run}
use octraban_contract.Explorer.View.{View, view}
use octraban_contract.Explorer.Spec
use octraban_contract.Explorer.Refine.{invoke-refines}
use octraban_contract.Explorer.History.{archive, archive_if, recorded}
use octraban_contract.Explorer.History.Sound.{IsSound}
use octraban_contract.Explorer.History.Run.{IsFresh, IsFresh-IsSound, run-IsSound}

-- The address is in the slot.
abbrev pub names : Option Address → Address → Bool
names none a = false
names (some b) a = a == b

-- The caller registered the contract that is stored under the id.
abbrev pub registered_by : View → Bytes32 → Address → Bool
registered_by v id a = elim (v.contracts id) [ none ↦ false | some m ↦ a == m.registered_by ]

-- The number after the current version of a registered contract.
abbrev pub next_version : View → Bytes32 → ℕ
next_version v id = elim (v.contracts id) [ none ↦ 0 | some m ↦ m.abi_version + 1 ]

-- The event of that number is in its slot.
abbrev pub holds : View → ℕ → Bool
holds v n = elim (v.log (n % Spec.capacity_of v)) [ none ↦ false | some e ↦ e.seq == n ]

-- The number is in the live window: at most the capacity below the next number.
abbrev pub is_live : View → ℕ → Bool
is_live v n = leb (Spec.total_of v - Spec.capacity_of v) n && ltb n (Spec.total_of v)

abbrev pub is_frozen : View → Bool
is_frozen v = unwrap_or v.frozen false

-- The causes of the errors, by the tables of docs/INTERFACE.md; what they do not list is `false`.
-- `Unauthorized` is for a caller other than those of the access column.
unfoldable pub caused : Call → Error → View → Bool
caused (Call.init _ _) already_exists v = is_some v.owner
caused (Call.transfer_admin a _) unauthorized v = not (names v.owner a)
caused (Call.accept_admin _) not_found v = not (is_some v.nominee)
caused (Call.accept_admin a) unauthorized v = not (names v.nominee a)
caused (Call.cancel_admin_transfer a) unauthorized v = not (names v.owner a)
caused (Call.cancel_admin_transfer _) not_found v = not (is_some v.nominee)
caused (Call.pause a) unauthorized v = not (names v.owner a)
caused (Call.unpause a) unauthorized v = not (names v.owner a)
caused (Call.set_max_events a _) unauthorized v = not (names v.owner a)
caused (Call.set_max_events _ n) below_floor v = ltb n min_max_events
caused (Call.upgrade _ _) contract_paused v = is_frozen v
caused (Call.upgrade a _) unauthorized v = not (names v.owner a)
caused (Call.register_contract _ _ _) contract_paused v = is_frozen v
caused (Call.register_contract a _ _) unauthorized v = not (names v.owner a)
caused (Call.register_contract _ id _) already_exists v = is_some (v.contracts id)
caused (Call.update_contract _ _ _) contract_paused v = is_frozen v
caused (Call.update_contract _ id _) not_found v = not (is_some (v.contracts id))
caused (Call.update_contract a id _) unauthorized v = not (names v.owner a || registered_by v id a)
caused (Call.deregister_contract _ _) contract_paused v = is_frozen v
caused (Call.deregister_contract _ id) not_found v = not (is_some (v.contracts id))
caused (Call.deregister_contract a id) unauthorized v =
    not (names v.owner a || registered_by v id a)
caused (Call.submit_event _ i) invalid_input v = str_eq i.function ""
caused (Call.submit_event _ _) contract_paused v = is_frozen v
caused (Call.submit_event a _) unauthorized v = not (names v.owner a)
caused (Call.get_contract id) not_found v = not (is_some (v.contracts id))
caused (Call.get_event n) not_found v = not (is_live v n) && not (holds v n)
caused (Call.get_events _ limit) invalid_input v = limit == 0
caused _ _ v = false

-- The causes of errors that the document does not give: `update_contract` answers `Unauthorized` to
-- an ABI version other than the next one, also when the caller is the admin or the registrant, and
-- `get_event` answers `NotFound` to a number in the live window whose slot does not hold its event.
unfoldable pub undocumented : Call → Error → View → Bool
undocumented (Call.update_contract _ id m) unauthorized v = not (m.abi_version == next_version v id)
undocumented (Call.get_event n) not_found v = is_live v n && not (holds v n)
undocumented _ _ v = false

-- The address that a call has to be authorised by.
abbrev pub signer : Call → Option Address
signer (Call.transfer_admin a _) = some a
signer (Call.accept_admin a) = some a
signer (Call.cancel_admin_transfer a) = some a
signer (Call.pause a) = some a
signer (Call.unpause a) = some a
signer (Call.set_max_events a _) = some a
signer (Call.upgrade a _) = some a
signer (Call.register_contract a _ _) = some a
signer (Call.update_contract a _ _) = some a
signer (Call.deregister_contract a _) = some a
signer (Call.submit_event a _) = some a
signer _ = none

-- The call looks up the admin.
abbrev pub needs_admin : Call → Bool
needs_admin (Call.accept_admin _) = false
needs_admin c = is_some (signer c)

-- An update that is already at the last version.
abbrev pub at_last_version : Call → View → Bool
at_last_version (Call.update_contract _ id _) v = leb (2 ^ 32) (next_version v id)
at_last_version _ v = false

-- The code that an upgrade installs was uploaded.
abbrev pub code_there : Invocation → Call → Bool
code_there ctx (Call.upgrade _ w) = ctx.uploaded w
code_there ctx _ = true

-- The traps that a caller can bring about: the signature is missing, there is no admin yet, the
-- `u32` of the ABI version is used up, or the code of an upgrade was not uploaded.
unfoldable pub unready : Invocation → Call → View → Bool
unready ctx c v =
    elim (signer c) [ none ↦ false | some a ↦ not (ctx.authorised a) ]
    || (needs_admin c && not (is_some v.owner))
    || at_last_version c v
    || not (code_there ctx c)

-- The traps of the ring: no slots to take a remainder by, or the `u64` of the numbers is used up.
unfoldable pub exhausted : Call → View → Bool
exhausted (Call.submit_event _ _) v = Spec.capacity_of v == 0 || leb (2 ^ 64) (Spec.total_of v + 1)
exhausted (Call.get_event _) v = Spec.capacity_of v == 0
exhausted (Call.get_events _ _) v = Spec.capacity_of v == 0
exhausted _ v = false

-- An outcome other than a success has one of the causes above.
abbrev pub explained : {S A : Type 0} → Invocation → Call → View → Outcome Error S A → Bool
explained ctx c v (done _ _) = true
explained ctx c v (panic e) = caused c e v || undocumented c e v
explained ctx c v trap = unready ctx c v || exhausted c v
explained ctx c v diverge = false

explained-observe :
    {S T A : Type 0} (ctx : Invocation) (c : Call) (v : View) (f : S → T) (o : Outcome Error S A)
    → explained ctx c v (observe f o) ≡ explained ctx c v o
explained-observe ctx c v f (done a s) = refl
explained-observe ctx c v f (panic e) = refl
explained-observe ctx c v f trap = refl
explained-observe ctx c v f diverge = refl

explained-discard :
    {S A : Type 0} (ctx : Invocation) (c : Call) (v : View) (o : Outcome Error S A) (s : S)
    → explained ctx c v (discard (λ _. o) s) ≡ explained ctx c v o
explained-discard ctx c v (done a s') s = refl
explained-discard ctx c v (panic e) s = refl
explained-discard ctx c v trap s = refl
explained-discard ctx c v diverge s = refl

explained-get_event :
    (ctx : Invocation) (n : ℕ) (v : View)
    → explained ctx (Call.get_event n) v (Spec.get_event n v) ≡ true
unfolding Spec.get_event caused undocumented exhausted unready
explained-get_event ctx n v = ground arith

explained-get_events :
    (ctx : Invocation) (cursor limit : ℕ) (v : View)
    → explained ctx (Call.get_events cursor limit) v (Spec.get_events cursor limit v) ≡ true
unfolding Spec.get_events caused undocumented exhausted unready
explained-get_events ctx cursor limit v = ground arith

explained_by_specification :
    (ctx : Invocation) (c : Call) (v : View) → explained ctx c v (Spec.invoke ctx c v) ≡ true
unfolding Spec.invoke caused undocumented unready exhausted
explained_by_specification ctx (Call.get_event n) v =
    explained-discard ctx (Call.get_event n) v (Spec.get_event n v) v ∙ explained-get_event ctx n v
explained_by_specification ctx (Call.get_events n l) v =
    explained-discard ctx (Call.get_events n l) v (Spec.get_events n l v) v
    ∙ explained-get_events ctx n l v
explained_by_specification ctx c v = ground arith

-- Over every host and in every state an invocation of an entry point ends: it succeeds, or it fails
-- with an error that docs/INTERFACE.md gives the entry point, for the cause in the storage that it
-- gives, or for one of two causes that it does not give (`Unauthorized` from `update_contract` for
-- an ABI version other than the next one, and `NotFound` from `get_event` for a number in the live
-- window whose slot does not hold its event); or it traps, for want of a signature, an admin, a slot
-- or a number of the ring, an ABI version, or the uploaded code of an upgrade. The loop of
-- `get_events` never runs out of fuel, and no entry point returns `Unsupported`. Failures of the
-- host by its resource limits or by an archived entry are outside the model.
pub explained-invoke :
    (h : Host Value Published) (ctx : Invocation) (c : Call) (s : h.State)
    → explained ctx c (view h s) (invoke h ctx c s) ≡ true
explained-invoke h ctx c s =
    sym (explained-observe ctx c (view h s) (view h) (invoke h ctx c s))
    ∙ ap (explained ctx c (view h s)) (invoke-refines h ctx c s)
    ∙ explained_by_specification ctx c (view h s)
