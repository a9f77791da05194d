-- ===== src/Host/Actions.antt =====
-- The host calls as actions, and the ways in which Rust code ends an invocation.
use octraban_contract.Common.{ℕ, ◌+◌, ◌%◌, ◌^◌, Bool, true, false, Option, none, some, ltb, ◌==◌, ⊤}
use octraban_contract.Host.Monad.{done, panic, trap, Action}
use octraban_contract.Host.Interface.{Slot, Lease, key_of, Invocation, Host}

module _ {E S : Type 0} where
  abbrev pub pure : {A : Type 0} → A → Action E S A
  pure a s = done a s

  -- `if c { panic_with_error!(&env, e) }`, or `if c { return Err(e) }`.
  abbrev pub raise_if : Bool → E → Action E S ⊤
  raise_if true e s = panic e
  raise_if false e s = done tt s

  -- `if c { panic!(..) }`, or `assert!(!c, ..)`.
  abbrev pub trap_if : Bool → Action E S ⊤
  trap_if true s = trap
  trap_if false s = done tt s

  -- `.unwrap()`, `.expect(..)`.
  abbrev pub unwrap : {A : Type 0} → Option A → Action E S A
  unwrap none s = trap
  unwrap (some a) s = done a s

  -- `.ok_or(e)?`, or `.unwrap_or_else(|| panic_with_error!(&env, e))`.
  abbrev pub or_raise : {A : Type 0} → Option A → E → Action E S A
  or_raise none e s = panic e
  or_raise (some a) e s = done a s

  -- `a + b` of width `w`, with overflow checks on.
  abbrev pub checked_add : ℕ → ℕ → ℕ → Action E S ℕ
  checked_add w a b s = elim (ltb (a + b) (2 ^ w)) [ true ↦ done (a + b) s | false ↦ trap ]

  -- `a % b`: a remainder by zero traps.
  abbrev pub checked_rem : ℕ → ℕ → Action E S ℕ
  checked_rem a b s = elim (b == 0) [ true ↦ trap | false ↦ done (a % b) s ]

  -- `address.require_auth()`.
  abbrev pub require_auth : Invocation → ℕ → Action E S ⊤
  require_auth ctx a s = elim (ctx.authorised a) [ true ↦ done tt s | false ↦ trap ]

module _ {K : Type 0} {V : K → Type 0} {P : Type 0} (h : Host V P) {E : Type 0} where
  abbrev pub get : (p : Slot K) → Action E h.State (Option (V (key_of p)))
  get p s = done (h.get p s) s

  abbrev pub has : Slot K → Action E h.State Bool
  has p s = done (h.has p s) s

  abbrev pub set : (p : Slot K) → V (key_of p) → Action E h.State ⊤
  set p v s = done tt (h.set p v s)

  abbrev pub remove : Slot K → Action E h.State ⊤
  remove p s = done tt (h.remove p s)

  abbrev pub extend_ttl : Lease K → ℕ → ℕ → Action E h.State ⊤
  extend_ttl l threshold to s = done tt (h.extend_ttl l threshold to s)

  abbrev pub publish : P → Action E h.State ⊤
  publish e s = done tt (h.publish e s)

  -- `deployer().update_current_contract_wasm(w)`: the host refuses a hash that was not uploaded.
  abbrev pub update_current_contract_wasm : Invocation → ℕ → Action E h.State ⊤
  update_current_contract_wasm ctx w s = elim (ctx.uploaded w) [
    | true ↦ done tt (h.update_wasm w s)
    | false ↦ trap
  ]
