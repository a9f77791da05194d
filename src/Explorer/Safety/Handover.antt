-- ===== src/Explorer/Safety/Handover.antt =====
-- The two steps of the handover: the admin changes only when the nominee accepts.
use octraban_contract.Common.{◌≡◌, ◌≢◌, Bool, true, false, not, none, some, List, arith, refl, ap}
use octraban_contract.Host.{done, Host, Invocation}
use octraban_contract.Explorer.Types.{Address, Value, Published}
use octraban_contract.Explorer.Contract.{Call, invoke, run}
use octraban_contract.Explorer.View.{View, view}
use octraban_contract.Explorer.Spec
use octraban_contract.Explorer.Refine.{invoke-done, every, run-keeps}
use octraban_contract.Explorer.Safety.Reads.{read-view}

-- What may become of the admin in one call.
abbrev pub Succession : Invocation → Call → View → View → Type 0
Succession ctx (Call.init a _) v v' = (v.owner ≡ none) × (v'.owner ≡ some a)
Succession ctx (Call.accept_admin a) v v' =
    (ctx.authorised a ≡ true) × (v.nominee ≡ some a) × (v'.owner ≡ some a) × (v'.nominee ≡ none)
Succession ctx _ v v' = v'.owner ≡ v.owner

spec-Succession :
    (ctx : Invocation) (c : Call) (v v' : View) {r : Unit {0}}
    → Spec.invoke ctx c v ≡ done r v'
    → Succession ctx c v v'
unfolding Spec.invoke
spec-Succession ctx (Call.init _ _) v v' e = ground arith
spec-Succession ctx (Call.get_event n) v v' e =
    ap (λ w. w.owner) (read-view ctx (Call.get_event n) v v' refl e)
spec-Succession ctx (Call.get_events c l) v v' e =
    ap (λ w. w.owner) (read-view ctx (Call.get_events c l) v v' refl e)
spec-Succession ctx _ v v' e = ground arith

module _ (h : Host Value Published) where
  -- A successful call leaves the admin as it was, unless it is the first `init`, or the pending nominee
  -- accepts with its own authorisation: then the nominee is the admin and no nomination is left.
  pub invoke-Succession :
      (ctx : Invocation) (c : Call) (s s' : h.State) {r : Unit {0}}
      → invoke h ctx c s ≡ done r s'
      → Succession ctx c (view h s) (view h s')
  invoke-Succession ctx c s s' e =
      spec-Succession ctx c (view h s) (view h s') (invoke-done h ctx c s s' e)

-- The address has not authorised the invocation.
abbrev pub is_unsigned : Address → Invocation → Call → Bool
is_unsigned x ctx c = not (ctx.authorised x)

-- There is an admin, and it is not `x`.
abbrev pub IsHeldByOther : Address → View → Type 0
IsHeldByOther x v = (v.owner ≢ none) × (v.owner ≢ some x)

spec-IsHeldByOther :
    (x : Address) (ctx : Invocation) (c : Call) (v v' : View)
    → Succession ctx c v v'
    → ctx.authorised x ≡ false
    → IsHeldByOther x v
    → IsHeldByOther x v'
spec-IsHeldByOther x ctx (Call.init _ _) v v' e unsigned held = absurd (held.0 e.0)
spec-IsHeldByOther x ctx (Call.accept_admin a) v v' e unsigned held = (ground arith, ground arith)
spec-IsHeldByOther x ctx c v v' e unsigned held = rw e held

-- However the others call the contract, and whomever they nominate: an address that authorises
-- no invocation itself never becomes the admin of a contract that has another admin.
pub never_signs_never_admin :
    (h : Host Value Published) (x : Address) (cs : List (Invocation × Call)) (s : h.State)
    → every (is_unsigned x) cs ≡ true
    → IsHeldByOther x (view h s)
    → IsHeldByOther x (view h (run h cs s))
never_signs_never_admin h x cs s unsigned held =
    run-keeps h (IsHeldByOther x) (is_unsigned x)
      (λ ctx c v v' t e p.
        spec-IsHeldByOther x ctx c v v' (spec-Succession ctx c v v' e) (ground arith) p)
      cs s unsigned held
