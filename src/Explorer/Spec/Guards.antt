-- ===== src/Explorer/Spec/Guards.antt =====
-- The guards of the specifications, each with what happens behind it.
use octraban_contract.Common.{false, ◌||◌, none, some, List, ◌++◌, ◌==◌, if◌then◌else◌, unwrap_or}
use octraban_contract.Host.{Outcome, panic, trap, Invocation}
use octraban_contract.Explorer.Types.{Error, unauthorized, contract_paused, Address, Published}
use octraban_contract.Explorer.View.{View}

module _ {A : Type 0} where
  -- The address has authorised the invocation.
  abbrev pub authorised : Invocation → Address → Outcome Error View A → Outcome Error View A
  authorised ctx a k = if ctx.authorised a then k else trap

  -- The contract is not paused.
  abbrev pub running : View → Outcome Error View A → Outcome Error View A
  running v k = if unwrap_or v.frozen false then panic contract_paused else k

  -- The caller is the admin; before `init` there is none, and the call traps.
  abbrev pub by_owner : View → Address → Outcome Error View A → Outcome Error View A
  by_owner v caller k = elim v.owner [
    | none ↦ trap
    | some a ↦ if caller == a then k else panic unauthorized
  ]

  -- The caller is the admin or the given registrant.
  abbrev pub by_owner_or : View → Address → Address → Outcome Error View A → Outcome Error View A
  by_owner_or v registrant caller k = elim v.owner [
    | none ↦ trap
    | some a ↦ if caller == registrant || caller == a then k else panic unauthorized
  ]

-- A view with some more published events.
abbrev pub emit : List Published → View → View
emit es v = record v { emitted = v.emitted ++ es }
