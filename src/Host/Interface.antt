-- ===== src/Host/Interface.antt =====
-- The host's operations and their documented laws.
use octraban_contract.Common.{
  ℕ, ◌≡◌, ◌≢◌, Bool, Option, none, some, List, [], ◌∷◌, ◌++◌, is_some, ltb, if◌then◌else◌,
}

-- A storage entry: `storage().instance()` and `storage().persistent()` are separate maps.
pub data Slot (K : Type 0) : Type 0 where
  instance_slot persistent_slot : K → Slot K

-- What has a time to live: the instance as a whole, or one persistent entry.
pub data Lease (K : Type 0) : Type 0 where
  instance_lease : Lease K
  entry_lease : K → Lease K

abbrev pub key_of : {K : Type 0} → Slot K → K
key_of (instance_slot k) = k
key_of (persistent_slot k) = k

abbrev pub lease_of : {K : Type 0} → Slot K → Lease K
lease_of (instance_slot k) = instance_lease
lease_of (persistent_slot k) = entry_lease k

-- What the host knows of one invocation: who has authorised it (`require_auth`), the sequence number
-- of the current ledger (`ledger().sequence()`), and the hashes of the code that was uploaded to the
-- ledger before it.
pub record Invocation : Type 0 where
  pub authorised : ℕ → Bool
  pub sequence : ℕ
  pub uploaded : ℕ → Bool

-- `V` gives the type that a contract stores under each key, `P` is the type of published events.
pub record Host {K : Type 0} (V : K → Type 0) (P : Type 0) : Type 1 where
  pub State : Type 0
  pub get : (p : Slot K) → State → Option (V (key_of p))
  pub has : Slot K → State → Bool
  pub set : (p : Slot K) → V (key_of p) → State → State
  pub remove : Slot K → State → State
  pub extend_ttl : Lease K → ℕ → ℕ → State → State
  pub publish : P → State → State
  pub update_wasm : ℕ → State → State
  -- What can be observed of a state besides its entries.
  pub ttl : Lease K → State → ℕ
  pub events : State → List P
  pub wasm : State → Option ℕ
  -- The entries.
  pub has-get : (p : Slot K) (s : State) → has p s ≡ is_some (get p s)
  pub get-set_self : (p : Slot K) (v : V (key_of p)) (s : State) → get p (set p v s) ≡ some v
  pub get-set_ne :
      (p q : Slot K) (v : V (key_of p)) (s : State) → p ≢ q → get q (set p v s) ≡ get q s
  pub get-remove_self : (p : Slot K) (s : State) → get p (remove p s) ≡ none
  pub get-remove_ne : (p q : Slot K) (s : State) → p ≢ q → get q (remove p s) ≡ get q s
  pub get-extend_ttl :
      (q : Slot K) (l : Lease K) (a b : ℕ) (s : State) → get q (extend_ttl l a b s) ≡ get q s
  pub get-publish : (q : Slot K) (e : P) (s : State) → get q (publish e s) ≡ get q s
  pub get-update_wasm : (q : Slot K) (w : ℕ) (s : State) → get q (update_wasm w s) ≡ get q s
  -- The log of published events.
  pub events-set : (p : Slot K) (v : V (key_of p)) (s : State) → events (set p v s) ≡ events s
  pub events-remove : (p : Slot K) (s : State) → events (remove p s) ≡ events s
  pub events-extend_ttl :
      (l : Lease K) (a b : ℕ) (s : State) → events (extend_ttl l a b s) ≡ events s
  pub events-publish : (e : P) (s : State) → events (publish e s) ≡ events s ++ (e ∷ [])
  pub events-update_wasm : (w : ℕ) (s : State) → events (update_wasm w s) ≡ events s
  -- The code that later invocations run.
  pub wasm-set : (p : Slot K) (v : V (key_of p)) (s : State) → wasm (set p v s) ≡ wasm s
  pub wasm-remove : (p : Slot K) (s : State) → wasm (remove p s) ≡ wasm s
  pub wasm-extend_ttl : (l : Lease K) (a b : ℕ) (s : State) → wasm (extend_ttl l a b s) ≡ wasm s
  pub wasm-publish : (e : P) (s : State) → wasm (publish e s) ≡ wasm s
  pub wasm-update_wasm : (w : ℕ) (s : State) → wasm (update_wasm w s) ≡ some w
  -- Leases: an extension takes effect only below its threshold, and no other call named here
  -- touches the lease of an entry that it does not write.
  pub ttl-extend_ttl_self :
      (l : Lease K) (a b : ℕ) (s : State)
      → ttl l (extend_ttl l a b s) ≡ (if ltb (ttl l s) a then b else ttl l s)
  pub ttl-extend_ttl_ne :
      (l k : Lease K) (a b : ℕ) (s : State) → l ≢ k → ttl k (extend_ttl l a b s) ≡ ttl k s
  pub ttl-set_ne :
      (p : Slot K) (k : Lease K) (v : V (key_of p)) (s : State)
      → lease_of p ≢ k
      → ttl k (set p v s) ≡ ttl k s
  pub ttl-publish : (k : Lease K) (e : P) (s : State) → ttl k (publish e s) ≡ ttl k s
  pub ttl-update_wasm : (k : Lease K) (w : ℕ) (s : State) → ttl k (update_wasm w s) ≡ ttl k s
