-- ===== src/Host/Script.antt =====
-- Programs that drive a deployed contract through its generated client, as the tests and the fuzz
-- targets do: `client.f(..)` panics if the invocation fails, `client.try_f(..)` returns how it ended,
-- `env.events()` returns what was published, and `assert!` panics.
use octraban_contract.Common.{ℕ, ◌≡◌, refl, ◌∙◌, arith, Bool, true, false, List, ⊤}
use octraban_contract.Host.Monad.{Outcome, done, panic, trap, diverge, Action}
use octraban_contract.Host.Interface.{Invocation}
use octraban_contract.Host.Observe.{observe}

-- What `try_f` returns: `Ok(Ok(a))`, `Err(Ok(e))`, or an error of the host.
pub data Tried (E A : Type 0) : Type 0 where
  ok : A → Tried E A
  raised : E → Tried E A
  aborted : Tried E A

-- `is_err()`.
abbrev pub is_err : {E A : Type 0} → Tried E A → Bool
is_err (ok _) = false
is_err (raised _) = true
is_err aborted = true

-- `C` are the calls of the contract, each with the type of its reply; `P` are its events.
pub data Script {C : Type 0} (Reply : C → Type 0) (E P A : Type 0) : Type 0 where
  finish : A → Script Reply E P A
  call : (c : C) → (Reply c → Script Reply E P A) → Script Reply E P A
  attempt : (c : C) → (Tried E (Reply c) → Script Reply E P A) → Script Reply E P A
  events : (List P → Script Reply E P A) → Script Reply E P A
  fail : Script Reply E P A

module _ {C : Type 0} {Reply : C → Type 0} {E P : Type 0} where
  infixl 5 ◌>>=◌ ◌>>◌
  abbrev pub ◌>>=◌ :
      {A B : Type 0} → Script Reply E P A → (A → Script Reply E P B) → Script Reply E P B
  finish a >>= f = f a
  call c k >>= f = call c (λ r. k r >>= f)
  attempt c k >>= f = attempt c (λ r. k r >>= f)
  events k >>= f = events (λ es. k es >>= f)
  fail >>= f = fail

  abbrev pub ◌>>◌ :
      {B : Type 0} → Script Reply E P (Unit {0}) → Script Reply E P B → Script Reply E P B
  m >> k = m >>= λ _. k

  -- `client.f(..)`.
  abbrev pub client : (c : C) → Script Reply E P (Reply c)
  client c = call c finish

  -- `client.try_f(..)`.
  abbrev pub try : (c : C) → Script Reply E P (Tried E (Reply c))
  try c = attempt c finish

  -- `let _ = client.try_f(..);`.
  abbrev pub try_ignored : C → Script Reply E P ⊤
  try_ignored c = attempt c (λ _. finish tt)

  -- `client.f(..);` for a call whose reply is dropped.
  abbrev pub run_call : C → Script Reply E P ⊤
  run_call c = call c (λ _. finish tt)

  abbrev pub assert : Bool → Script Reply E P ⊤
  assert true = finish tt
  assert false = fail

  -- `env.events().all()`, the contract's own.
  abbrev pub all_events : Script Reply E P (List P)
  all_events = events finish

-- The run of a script that does not panic.
abbrev pub passes : {E S A : Type 0} → Outcome E S A → Bool
passes (done _ _) = true
passes (panic _) = false
passes trap = false
passes diverge = false

pub passes-observe :
    {E S T A : Type 0} (f : S → T) (o : Outcome E S A) → passes (observe f o) ≡ passes o
passes-observe f (done a s) = refl
passes-observe f (panic e) = refl
passes-observe f trap = refl
passes-observe f diverge = refl

-- `env.mock_all_auths()`, at the ledger `n` of a test's own environment, to which no code is uploaded.
abbrev pub mock_all_auths : ℕ → Invocation
mock_all_auths n = record { authorised = λ a. true; sequence = n; uploaded = λ w. false }

-- What drives a contract: how each call ends, and what was published.
pub record Driver {C : Type 0} (Reply : C → Type 0) (E P S : Type 0) : Type 0 where
  pub perform : (c : C) → Action E S (Reply c)
  pub log : S → List P

module _ {C : Type 0} {Reply : C → Type 0} {E P : Type 0} where
  -- An invocation that fails leaves the state as it was.
  unfoldable pub play : {S A : Type 0} → Driver Reply E P S → Script Reply E P A → Action E S A
  play d (finish a) s = done a s
  play d (call c k) s = elim (d.perform c s) [
    | done r s' ↦ play d (k r) s'
    | panic e ↦ panic e
    | trap ↦ trap
    | diverge ↦ diverge
  ]
  play d (attempt c k) s = elim (d.perform c s) [
    | done r s' ↦ play d (k (ok r)) s'
    | panic e ↦ play d (k (raised e)) s
    | trap ↦ play d (k aborted) s
    | diverge ↦ diverge
  ]
  play d (events k) s = play d (k (d.log s)) s
  play d fail s = trap

  -- Where every call is seen to end as a specification says, so is every script.
  module _ {S T : Type 0} (f : S → T) (d : Driver Reply E P S) (q : Driver Reply E P T)
      (same : (c : C) (s : S) → observe f (d.perform c s) ≡ q.perform c (f s))
      (same_log : (s : S) → d.log s ≡ q.log (f s)) where
    called :
        {A : Type 0} (c : C) (k : Reply c → Script Reply E P A) (s : S) (o : Outcome E S (Reply c))
        (p : Outcome E T (Reply c))
        → d.perform c s ≡ o
        → q.perform c (f s) ≡ p
        → observe f o ≡ p
        → ((r : Reply c) (s' : S) → observe f (play d (k r) s') ≡ play q (k r) (f s'))
        → observe f (play d (call c k) s) ≡ play q (call c k) (f s)
    unfolding play
    called c k s (done r s') p e e' sim next = ground (arith, next r s')
    called c k s (panic x) p e e' sim next = ground arith
    called c k s trap p e e' sim next = ground arith
    called c k s diverge p e e' sim next = ground arith

    attempted :
        {A : Type 0} (c : C) (k : Tried E (Reply c) → Script Reply E P A) (s : S)
        (o : Outcome E S (Reply c)) (p : Outcome E T (Reply c))
        → d.perform c s ≡ o
        → q.perform c (f s) ≡ p
        → observe f o ≡ p
        → ((r : Tried E (Reply c)) (s' : S) → observe f (play d (k r) s') ≡ play q (k r) (f s'))
        → observe f (play d (attempt c k) s) ≡ play q (attempt c k) (f s)
    unfolding play
    attempted c k s (done r s') p e e' sim next = ground (arith, next (ok r) s')
    attempted c k s (panic x) p e e' sim next = ground (arith, next (raised x) s)
    attempted c k s trap p e e' sim next = ground (arith, next aborted s)
    attempted c k s diverge p e e' sim next = ground arith

    pub play-observe :
        {A : Type 0} (m : Script Reply E P A) (s : S) → observe f (play d m s) ≡ play q m (f s)
    unfolding play
    play-observe (finish a) s = refl
    play-observe (call c k) s =
        called c k s (d.perform c s) (q.perform c (f s)) refl refl (same c s)
          (λ r s'. play-observe (k r) s')
    play-observe (attempt c k) s =
        attempted c k s (d.perform c s) (q.perform c (f s)) refl refl (same c s)
          (λ r s'. play-observe (k r) s')
    play-observe (events k) s = play-observe (k (d.log s)) s ∙ rw (same_log s)
    play-observe fail s = refl
