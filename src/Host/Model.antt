-- ===== src/Host/Model.antt =====
-- A host that meets the laws, built from functions: the storage maps each slot to its value, the
-- leases map each lease to its time to live. It serves to run the contracts on concrete inputs.
use octraban_contract.Common.{
  ℕ, ◌≡◌, ◌≢◌, Bool, true, false, Option, none, some, List, [], ◌∷◌, ◌++◌, is_some, ltb,
  if◌then◌else◌, refl, ap,
}
use octraban_contract.Host.Interface.{
  Slot, instance_slot, persistent_slot, Lease, instance_lease, entry_lease, key_of, lease_of, Host,
}

-- What the model needs of the keys: a test of equality, and to hand a value stored under one key to
-- a read of another one if they are the same.
pub record Keys {K : Type 0} (V : K → Type 0) : Type 0 where
  pub same : K → K → Bool
  pub same_self : (k : K) → same k k ≡ true
  pub same_ne : (j k : K) → j ≢ k → same j k ≡ false
  pub cast : (j k : K) → V j → Option (V k)
  pub cast_self : (k : K) (v : V k) → cast k k v ≡ some v
  pub cast_ne : (j k : K) (v : V j) → j ≢ k → cast j k v ≡ none

module _ {K : Type 0} (V : K → Type 0) (P : Type 0) where
  pub record Store : Type 0 where
    pub entries : (p : Slot K) → Option (V (key_of p))
    pub leases : Lease K → ℕ
    pub published : List P
    pub installed : Option ℕ

module _ {K : Type 0} {V : K → Type 0} (keys : Keys V) where
  abbrev pub over : {A : Type 0} → Option A → Option A → Option A
  over none old = old
  over (some a) old = some a

  abbrev pub write :
      (p : Slot K)
      → V (key_of p)
      → ((q : Slot K) → Option (V (key_of q)))
      → (q : Slot K) → Option (V (key_of q))
  write (instance_slot j) v f (instance_slot k) = over (keys.cast j k v) (f (instance_slot k))
  write (instance_slot j) v f (persistent_slot k) = f (persistent_slot k)
  write (persistent_slot j) v f (instance_slot k) = f (instance_slot k)
  write (persistent_slot j) v f (persistent_slot k) = over (keys.cast j k v) (f (persistent_slot k))

  abbrev pub clear :
      Slot K → ((q : Slot K) → Option (V (key_of q))) → (q : Slot K) → Option (V (key_of q))
  clear (instance_slot j) f (instance_slot k) = if keys.same j k then none else f (instance_slot k)
  clear (instance_slot j) f (persistent_slot k) = f (persistent_slot k)
  clear (persistent_slot j) f (instance_slot k) = f (instance_slot k)
  clear (persistent_slot j) f (persistent_slot k) =
      if keys.same j k then none else f (persistent_slot k)

  abbrev pub same_lease : Lease K → Lease K → Bool
  same_lease instance_lease instance_lease = true
  same_lease instance_lease (entry_lease k) = false
  same_lease (entry_lease j) instance_lease = false
  same_lease (entry_lease j) (entry_lease k) = keys.same j k

  abbrev pub prolong : Lease K → ℕ → ℕ → (Lease K → ℕ) → Lease K → ℕ
  prolong l threshold to f k =
      if same_lease l k then if ltb (f k) threshold then to else f k else f k

  -- A new persistent entry gets the network's minimum, 4096 ledgers.
  abbrev pub grant : (p : Slot K) → Option (V (key_of p)) → (Lease K → ℕ) → Lease K → ℕ
  grant (instance_slot k) old f l = f l
  grant (persistent_slot k) (some v) f l = f l
  grant (persistent_slot k) none f l = if same_lease (entry_lease k) l then 4096 else f l

  pub write_self :
      (p : Slot K) (v : V (key_of p)) (f : (q : Slot K) → Option (V (key_of q)))
      → write p v f p ≡ some v
  write_self (instance_slot k) v f = rw (keys.cast_self k v)
  write_self (persistent_slot k) v f = rw (keys.cast_self k v)

  pub write_ne :
      (p q : Slot K) (v : V (key_of p)) (f : (q : Slot K) → Option (V (key_of q)))
      → p ≢ q
      → write p v f q ≡ f q
  write_ne (instance_slot j) (instance_slot k) v f ne =
      rw (keys.cast_ne j k v (λ e. ne (ap instance_slot e)))
  write_ne (instance_slot j) (persistent_slot k) v f ne = refl
  write_ne (persistent_slot j) (instance_slot k) v f ne = refl
  write_ne (persistent_slot j) (persistent_slot k) v f ne =
      rw (keys.cast_ne j k v (λ e. ne (ap persistent_slot e)))

  pub clear_self : (p : Slot K) (f : (q : Slot K) → Option (V (key_of q))) → clear p f p ≡ none
  clear_self (instance_slot k) f = rw (keys.same_self k)
  clear_self (persistent_slot k) f = rw (keys.same_self k)

  pub clear_ne :
      (p q : Slot K) (f : (q : Slot K) → Option (V (key_of q))) → p ≢ q → clear p f q ≡ f q
  clear_ne (instance_slot j) (instance_slot k) f ne =
      rw (keys.same_ne j k (λ e. ne (ap instance_slot e)))
  clear_ne (instance_slot j) (persistent_slot k) f ne = refl
  clear_ne (persistent_slot j) (instance_slot k) f ne = refl
  clear_ne (persistent_slot j) (persistent_slot k) f ne =
      rw (keys.same_ne j k (λ e. ne (ap persistent_slot e)))

  pub same_lease_self : (l : Lease K) → same_lease l l ≡ true
  same_lease_self instance_lease = refl
  same_lease_self (entry_lease k) = keys.same_self k

  pub same_lease_ne : (l k : Lease K) → l ≢ k → same_lease l k ≡ false
  same_lease_ne instance_lease instance_lease ne = absurd (ne refl)
  same_lease_ne instance_lease (entry_lease k) ne = refl
  same_lease_ne (entry_lease j) instance_lease ne = refl
  same_lease_ne (entry_lease j) (entry_lease k) ne = keys.same_ne j k (λ e. ne (ap entry_lease e))

  pub grant_ne :
      (p : Slot K) (old : Option (V (key_of p))) (f : Lease K → ℕ) (l : Lease K)
      → lease_of p ≢ l
      → grant p old f l ≡ f l
  grant_ne (instance_slot k) old f l ne = refl
  grant_ne (persistent_slot k) (some v) f l ne = refl
  grant_ne (persistent_slot k) none f l ne = rw (same_lease_ne (entry_lease k) l ne)

  abbrev pub model : (P : Type 0) → Host V P
  model P = record {
    State = Store V P;
    get = λ p s. s.entries p;
    has = λ p s. is_some (s.entries p);
    set = λ p v s. record s {
      entries = write p v s.entries;
      leases = grant p (s.entries p) s.leases;
    };
    remove = λ p s. record s { entries = clear p s.entries };
    extend_ttl = λ l a b s. record s { leases = prolong l a b s.leases };
    publish = λ e s. record s { published = s.published ++ (e ∷ []) };
    update_wasm = λ w s. record s { installed = some w };
    ttl = λ l s. s.leases l;
    events = λ s. s.published;
    wasm = λ s. s.installed;
    has-get = λ p s. refl;
    get-set_self = λ p v s. write_self p v s.entries;
    get-set_ne = λ p q v s ne. write_ne p q v s.entries ne;
    get-remove_self = λ p s. clear_self p s.entries;
    get-remove_ne = λ p q s ne. clear_ne p q s.entries ne;
    get-extend_ttl = λ q l a b s. refl;
    get-publish = λ q e s. refl;
    get-update_wasm = λ q w s. refl;
    events-set = λ p v s. refl;
    events-remove = λ p s. refl;
    events-extend_ttl = λ l a b s. refl;
    events-publish = λ e s. refl;
    events-update_wasm = λ w s. refl;
    wasm-set = λ p v s. refl;
    wasm-remove = λ p s. refl;
    wasm-extend_ttl = λ l a b s. refl;
    wasm-publish = λ e s. refl;
    wasm-update_wasm = λ w s. refl;
    ttl-extend_ttl_self = λ l a b s. rw (same_lease_self l);
    ttl-extend_ttl_ne = λ l k a b s ne. rw (same_lease_ne l k ne);
    ttl-set_ne = λ p k v s ne. grant_ne p (s.entries p) s.leases k ne;
    ttl-publish = λ k e s. refl;
    ttl-update_wasm = λ k w s. refl;
  }
