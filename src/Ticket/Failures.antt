-- ===== src/Ticket/Failures.antt =====
-- Why an invocation of the ticket contract fails: the errors that docs/INTERFACE.md gives each entry
-- point, with their causes in the storage, and the causes of a trap.
use octraban_contract.Common.{
  ◌+◌, ◌^◌, ◌≡◌, ◌∙◌, Bool, true, false, not, ◌&&◌, ◌||◌, Option, none, some, ◌==◌, leb, is_some,
  unwrap_or, sym, ap, refl, arith,
}
use octraban_contract.Common.Int.{pos, ltb_ℤ}
use octraban_contract.Host.{Outcome, done, panic, trap, diverge, Host, Invocation}
use octraban_contract.Host.Observe.{observe}
use octraban_contract.Ticket.Types.{
  Error, not_found, not_initialized, already_initialized, negative_price, price_exceeds_ceiling,
  Address, Value, Published,
}
use octraban_contract.Ticket.Contract.{Call, invoke}
use octraban_contract.Ticket.View.{View, view}
use octraban_contract.Ticket.Spec
use octraban_contract.Ticket.Refine.{invoke-refines_ticket}

-- The causes of the errors, by the tables of docs/INTERFACE.md; what they do not list is `false`.
unfoldable pub caused : Call → Error → View → Bool
caused (Call.initialize _ _ _ _ _) already_initialized v = is_some v.organizer
caused (Call.initialize _ _ _ p m) negative_price v = ltb_ℤ p (pos 0) || ltb_ℤ m (pos 0)
caused (Call.mint_ticket _ _) not_initialized v = not (is_some v.organizer)
caused (Call.transfer_ticket _ _ _ p) negative_price v = ltb_ℤ p (pos 0)
caused (Call.transfer_ticket _ _ id _) not_found v = not (is_some (v.tickets id))
caused (Call.transfer_ticket _ _ id p) price_exceeds_ceiling v = elim (v.tickets id) [
  | none ↦ false
  | some t ↦ ltb_ℤ t.max_resale_price p
]
caused (Call.verify_ticket _ _) not_initialized v = not (is_some v.organizer)
caused (Call.get_ticket id) not_found v = not (is_some (v.tickets id))
caused (Call.upgrade _ _) not_initialized v = not (is_some v.organizer)
caused _ _ v = false

-- The address that a call has to be authorised by.
abbrev pub signer : Call → Option Address
signer (Call.initialize a _ _ _ _) = some a
signer (Call.mint_ticket a _) = some a
signer (Call.transfer_ticket a _ _ _) = some a
signer (Call.verify_ticket a _) = some a
signer (Call.upgrade a _) = some a
signer _ = none

-- The organizer is the address.
abbrev pub organized_by : View → Address → Bool
organized_by v a = elim v.organizer [ none ↦ false | some b ↦ a == b ]

-- The settings of the sale that a mint looks up are there.
abbrev pub is_open : View → Bool
is_open v =
    is_some v.supply && is_some v.minted && is_some v.cost && is_some v.ceiling && is_some v.event

-- What a call `assert!`s or unwraps besides, and does not find; a counter that is used up.
abbrev pub asserts_fail : Call → View → Bool
asserts_fail (Call.mint_ticket a _) v =
    not (organized_by v a)
    || not (is_open v)
    || leb (unwrap_or v.supply 0) (unwrap_or v.minted 0)
    || leb (2 ^ 64) (unwrap_or v.minted 0 + 1)
asserts_fail (Call.transfer_ticket from _ id _) v = elim (v.tickets id) [
  | none ↦ false
  | some t ↦ not (t.owner == from) || not (Spec.is_valid t.status)
]
asserts_fail (Call.verify_ticket a id) v = not (organized_by v a) || not (is_some (v.tickets id))
asserts_fail (Call.upgrade a _) v = not (organized_by v a)
asserts_fail _ v = false

-- The code that an upgrade installs was uploaded.
abbrev pub code_there : Invocation → Call → Bool
code_there ctx (Call.upgrade _ w) = ctx.uploaded w
code_there ctx _ = true

unfoldable pub trapped : Invocation → Call → View → Bool
trapped ctx c v =
    elim (signer c) [ none ↦ false | some a ↦ not (ctx.authorised a) ]
    || asserts_fail c v
    || not (code_there ctx c)

-- An outcome other than a success has one of the causes above.
abbrev pub explained : {S A : Type 0} → Invocation → Call → View → Outcome Error S A → Bool
explained ctx c v (done _ _) = true
explained ctx c v (panic e) = caused c e v
explained ctx c v trap = trapped ctx c v
explained ctx c v diverge = false

explained-observe :
    {S T A : Type 0} (ctx : Invocation) (c : Call) (v : View) (f : S → T) (o : Outcome Error S A)
    → explained ctx c v (observe f o) ≡ explained ctx c v o
explained-observe ctx c v f (done a s) = refl
explained-observe ctx c v f (panic e) = refl
explained-observe ctx c v f trap = refl
explained-observe ctx c v f diverge = refl

explained_by_specification :
    (ctx : Invocation) (c : Call) (v : View) → explained ctx c v (Spec.invoke ctx c v) ≡ true
unfolding Spec.invoke caused trapped
explained_by_specification ctx c v = ground arith

-- Over every host and in every state an invocation of an entry point of the ticket contract ends: it
-- succeeds, or it fails with an error that the entry point is documented to have, for the cause in
-- the storage that the error stands for, or it traps because the signature is missing, the caller is
-- not the organizer or the owner, the sale is not open or sold out, the counter is used up, the
-- ticket is not valid or, for a verification, not there, or the code of an upgrade was not uploaded;
-- `PriceOverflow` is returned by no entry point. Failures of the host by its resource limits or by an
-- archived entry are outside the model.
pub explained-invoke_ticket :
    (h : Host Value Published) (ctx : Invocation) (c : Call) (s : h.State)
    → explained ctx c (view h s) (invoke h ctx c s) ≡ true
explained-invoke_ticket h ctx c s =
    sym (explained-observe ctx c (view h s) (view h) (invoke h ctx c s))
    ∙ ap (explained ctx c (view h s)) (invoke-refines_ticket h ctx c s)
    ∙ explained_by_specification ctx c (view h s)
