-- ===== src/Explorer/Replay.antt =====
-- explorer/src/lib.rs against docs/EVENTS.md: what an indexer that reads nothing but the published
-- events knows of the contract.
pub mod Calls
pub mod Run
use octraban_contract.Common.{
  ℕ, ◌+◌, ◌≡◌, ◌≢◌, ◌∙◌, Bool, true, false, Option, none, some, List, [], ◌∷◌, ◌++◌, ◌==◌, str_eq,
  if◌then◌else◌, String, ap, sym, refl, arith, Option-cases, inl, inr, unwrap_or,
}
use octraban_contract.Host.{Outcome, done, panic, trap, diverge, Host, Invocation}
use octraban_contract.Explorer.Types.{
  Address, Bytes32, event_version, ContractMeta, EventInput, Val, Value, Published,
}
use octraban_contract.Explorer.Contract.{Call, invoke, run}
use octraban_contract.Explorer.View.{View, view}
use octraban_contract.Explorer.Spec

-- What the events tell: the admin, the nominee, the pause, the code, the number of the next event,
-- and the ABI version of one contract, if it is registered.
pub record Known : Type 0 where
  pub owner : Option Address
  pub nominee : Option Address
  pub frozen : Bool
  pub code : Option ℕ
  pub next : ℕ
  pub version : Option ℕ

-- The same, from the storage.
abbrev pub known_of : Bytes32 → View → Known
known_of id v = record {
  owner = v.owner;
  nominee = v.nominee;
  frozen = unwrap_or v.frozen false;
  code = v.code;
  next = Spec.total_of v;
  version = elim (v.contracts id) [ none ↦ none | some m ↦ some m.abi_version ];
}

-- `adm_nom`, `adm_acc` and `adm_cncl`.
unfoldable pub absorb_handover : String → Address → List Val → Known → Known
absorb_handover kind caller (Val.u32 _ ∷ Val.address new_admin ∷ []) k =
    if str_eq kind "adm_nom" then record k { nominee = some new_admin } else k
absorb_handover kind caller (Val.u32 _ ∷ []) k =
    if str_eq kind "adm_acc"
    then record k { owner = some caller; nominee = none }
    else if str_eq kind "adm_cncl"
    then record k { nominee = none }
    else k
absorb_handover kind caller _ k = k

-- `paused`, `unpaused` and `upgrade`.
unfoldable pub absorb_switch : String → List Val → Known → Known
absorb_switch kind (Val.u32 _ ∷ []) k =
    if str_eq kind "paused"
    then record k { frozen = true }
    else if str_eq kind "unpaused"
    then record k { frozen = false }
    else k
absorb_switch kind (Val.u32 _ ∷ Val.bytes32 hash ∷ []) k =
    if str_eq kind "upgrade" then record k { code = some hash } else k
absorb_switch kind _ k = k

-- `c_reg`, `c_abiu` and `c_dereg`; `c_upd` tells nothing of the ABI version.
unfoldable pub absorb_registry : String → List Val → Known → Known
absorb_registry kind (Val.u32 _ ∷ Val.u32 old ∷ Val.u32 new ∷ Val.u32 ledger ∷ []) k =
    if str_eq kind "c_abiu" then record k { version = some new } else k
absorb_registry kind _ k =
    if str_eq kind "c_reg"
    then record k { version = some 0 }
    else if str_eq kind "c_dereg"
    then record k { version = none }
    else k

-- `ev_sub`.
unfoldable pub absorb_event : String → List Val → Known → Known
absorb_event kind (Val.u32 _ ∷ Val.u64 seq ∷ Val.u32 ledger ∷ []) k =
    if str_eq kind "ev_sub" then record k { next = seq + 1 } else k
absorb_event kind _ k = k

-- What is known, with the version of the contract `id`, after one more event.
unfoldable pub absorb : Bytes32 → List Val → List Val → Known → Known
absorb id (Val.symbol kind ∷ []) payload k = absorb_switch kind payload k
absorb id (Val.symbol kind ∷ Val.address caller ∷ []) payload k =
    absorb_handover kind caller payload k
absorb id (Val.symbol kind ∷ Val.bytes32 c ∷ []) payload k =
    if c == id then absorb_registry kind payload k else k
absorb id (Val.symbol kind ∷ Val.bytes32 c ∷ Val.symbol function ∷ []) payload k =
    absorb_event kind payload k
absorb id _ payload k = k

-- What is known after the events, the first of them first.
unfoldable pub replay : Bytes32 → List Published → Known → Known
replay id [] k = k
replay id (e ∷ es) k = replay id es (absorb id e.topics e.payload k)

replay-append :
    (id : Bytes32) (es fs : List Published) (k : Known)
    → replay id (es ++ fs) k ≡ replay id fs (replay id es k)
unfolding replay
replay-append id [] fs k = refl
replay-append id (e ∷ es) fs k = replay-append id es fs (absorb id e.topics e.payload k)

-- The published events tell what is stored, from what was known before the first of them.
abbrev pub IsReplayed : Bytes32 → Known → View → Type 0
IsReplayed id k v = (v.owner ≢ none) × (replay id v.emitted k ≡ known_of id v)
