-- ===== src/Ticket/View/Laws.antt =====
-- How each host call that the ticket contract makes changes what can be seen of its storage.
use native.Mathlib.Decide.{ℕ_discrete}
use octraban_contract.Common.{ℕ, ◌≡◌, fun_ext, some, String, [], ◌∷◌, ◌++◌, arith}
use octraban_contract.Common.Int.{ℤ}
use octraban_contract.Host.{Host, instance_slot, persistent_slot}
use octraban_contract.Ticket.Types.{
  Address, admin, max_tix, price, next_id, evt_name, maxresale, ticket, Ticket, Value, Published,
}
use octraban_contract.Ticket.View.{view, update}

module _ (h : Host Value Published) where
  pub view-set_admin :
      (x : Address) (s : h.State)
      → view h (h.set (instance_slot admin) x s) ≡ record (view h s) { organizer = some x }
  view-set_admin x s = λ i. record {
    organizer = h.get-set_self (instance_slot admin) x s i;
    supply = h.get-set_ne (instance_slot admin) (instance_slot max_tix) x s (λ e. cc) i;
    cost = h.get-set_ne (instance_slot admin) (instance_slot price) x s (λ e. cc) i;
    event = h.get-set_ne (instance_slot admin) (instance_slot evt_name) x s (λ e. cc) i;
    ceiling = h.get-set_ne (instance_slot admin) (instance_slot maxresale) x s (λ e. cc) i;
    minted = h.get-set_ne (instance_slot admin) (instance_slot next_id) x s (λ e. cc) i;
    tickets =
        fun_ext (λ j. h.get-set_ne (instance_slot admin) (persistent_slot (ticket j)) x s (λ e. cc))
          i;
    emitted = h.events-set (instance_slot admin) x s i;
    code = h.wasm-set (instance_slot admin) x s i;
  }

  pub view-set_max_tix :
      (x : ℕ) (s : h.State)
      → view h (h.set (instance_slot max_tix) x s) ≡ record (view h s) { supply = some x }
  view-set_max_tix x s = λ i. record {
    organizer = h.get-set_ne (instance_slot max_tix) (instance_slot admin) x s (λ e. cc) i;
    supply = h.get-set_self (instance_slot max_tix) x s i;
    cost = h.get-set_ne (instance_slot max_tix) (instance_slot price) x s (λ e. cc) i;
    event = h.get-set_ne (instance_slot max_tix) (instance_slot evt_name) x s (λ e. cc) i;
    ceiling = h.get-set_ne (instance_slot max_tix) (instance_slot maxresale) x s (λ e. cc) i;
    minted = h.get-set_ne (instance_slot max_tix) (instance_slot next_id) x s (λ e. cc) i;
    tickets =
        fun_ext
          (λ j. h.get-set_ne (instance_slot max_tix) (persistent_slot (ticket j)) x s (λ e. cc)) i;
    emitted = h.events-set (instance_slot max_tix) x s i;
    code = h.wasm-set (instance_slot max_tix) x s i;
  }

  pub view-set_price :
      (x : ℤ) (s : h.State)
      → view h (h.set (instance_slot price) x s) ≡ record (view h s) { cost = some x }
  view-set_price x s = λ i. record {
    organizer = h.get-set_ne (instance_slot price) (instance_slot admin) x s (λ e. cc) i;
    supply = h.get-set_ne (instance_slot price) (instance_slot max_tix) x s (λ e. cc) i;
    cost = h.get-set_self (instance_slot price) x s i;
    event = h.get-set_ne (instance_slot price) (instance_slot evt_name) x s (λ e. cc) i;
    ceiling = h.get-set_ne (instance_slot price) (instance_slot maxresale) x s (λ e. cc) i;
    minted = h.get-set_ne (instance_slot price) (instance_slot next_id) x s (λ e. cc) i;
    tickets =
        fun_ext (λ j. h.get-set_ne (instance_slot price) (persistent_slot (ticket j)) x s (λ e. cc))
          i;
    emitted = h.events-set (instance_slot price) x s i;
    code = h.wasm-set (instance_slot price) x s i;
  }

  pub view-set_evt_name :
      (x : String) (s : h.State)
      → view h (h.set (instance_slot evt_name) x s) ≡ record (view h s) { event = some x }
  view-set_evt_name x s = λ i. record {
    organizer = h.get-set_ne (instance_slot evt_name) (instance_slot admin) x s (λ e. cc) i;
    supply = h.get-set_ne (instance_slot evt_name) (instance_slot max_tix) x s (λ e. cc) i;
    cost = h.get-set_ne (instance_slot evt_name) (instance_slot price) x s (λ e. cc) i;
    event = h.get-set_self (instance_slot evt_name) x s i;
    ceiling = h.get-set_ne (instance_slot evt_name) (instance_slot maxresale) x s (λ e. cc) i;
    minted = h.get-set_ne (instance_slot evt_name) (instance_slot next_id) x s (λ e. cc) i;
    tickets =
        fun_ext
          (λ j. h.get-set_ne (instance_slot evt_name) (persistent_slot (ticket j)) x s (λ e. cc)) i;
    emitted = h.events-set (instance_slot evt_name) x s i;
    code = h.wasm-set (instance_slot evt_name) x s i;
  }

  pub view-set_maxresale :
      (x : ℤ) (s : h.State)
      → view h (h.set (instance_slot maxresale) x s) ≡ record (view h s) { ceiling = some x }
  view-set_maxresale x s = λ i. record {
    organizer = h.get-set_ne (instance_slot maxresale) (instance_slot admin) x s (λ e. cc) i;
    supply = h.get-set_ne (instance_slot maxresale) (instance_slot max_tix) x s (λ e. cc) i;
    cost = h.get-set_ne (instance_slot maxresale) (instance_slot price) x s (λ e. cc) i;
    event = h.get-set_ne (instance_slot maxresale) (instance_slot evt_name) x s (λ e. cc) i;
    ceiling = h.get-set_self (instance_slot maxresale) x s i;
    minted = h.get-set_ne (instance_slot maxresale) (instance_slot next_id) x s (λ e. cc) i;
    tickets =
        fun_ext
          (λ j. h.get-set_ne (instance_slot maxresale) (persistent_slot (ticket j)) x s (λ e. cc))
          i;
    emitted = h.events-set (instance_slot maxresale) x s i;
    code = h.wasm-set (instance_slot maxresale) x s i;
  }

  pub view-set_next_id :
      (x : ℕ) (s : h.State)
      → view h (h.set (instance_slot next_id) x s) ≡ record (view h s) { minted = some x }
  view-set_next_id x s = λ i. record {
    organizer = h.get-set_ne (instance_slot next_id) (instance_slot admin) x s (λ e. cc) i;
    supply = h.get-set_ne (instance_slot next_id) (instance_slot max_tix) x s (λ e. cc) i;
    cost = h.get-set_ne (instance_slot next_id) (instance_slot price) x s (λ e. cc) i;
    event = h.get-set_ne (instance_slot next_id) (instance_slot evt_name) x s (λ e. cc) i;
    ceiling = h.get-set_ne (instance_slot next_id) (instance_slot maxresale) x s (λ e. cc) i;
    minted = h.get-set_self (instance_slot next_id) x s i;
    tickets =
        fun_ext
          (λ j. h.get-set_ne (instance_slot next_id) (persistent_slot (ticket j)) x s (λ e. cc)) i;
    emitted = h.events-set (instance_slot next_id) x s i;
    code = h.wasm-set (instance_slot next_id) x s i;
  }

  get-set_ticket :
      (x : ℕ) (v : Ticket) (s : h.State) (j : ℕ)
      → h.get (persistent_slot (ticket j)) (h.set (persistent_slot (ticket x)) v s)
        ≡ update (view h s).tickets x (some v) j
  get-set_ticket x v s j = elim (ℕ_discrete x j) [
    | yes e ↦ rw (← e) (ground (arith, h.get-set_self (persistent_slot (ticket x)) v s))
    | no ne ↦ ground (
      arith,
      h.get-set_ne (persistent_slot (ticket x)) (persistent_slot (ticket j)) v s (λ e. ne (cc)),
    )
  ]

  pub view-set_ticket :
      (x : ℕ) (v : Ticket) (s : h.State)
      → view h (h.set (persistent_slot (ticket x)) v s)
        ≡ record (view h s) { tickets = update (view h s).tickets x (some v) }
  view-set_ticket x v s = λ i. record {
    organizer = h.get-set_ne (persistent_slot (ticket x)) (instance_slot admin) v s (λ e. cc) i;
    supply = h.get-set_ne (persistent_slot (ticket x)) (instance_slot max_tix) v s (λ e. cc) i;
    cost = h.get-set_ne (persistent_slot (ticket x)) (instance_slot price) v s (λ e. cc) i;
    event = h.get-set_ne (persistent_slot (ticket x)) (instance_slot evt_name) v s (λ e. cc) i;
    ceiling = h.get-set_ne (persistent_slot (ticket x)) (instance_slot maxresale) v s (λ e. cc) i;
    minted = h.get-set_ne (persistent_slot (ticket x)) (instance_slot next_id) v s (λ e. cc) i;
    tickets = fun_ext (λ j. get-set_ticket x v s j) i;
    emitted = h.events-set (persistent_slot (ticket x)) v s i;
    code = h.wasm-set (persistent_slot (ticket x)) v s i;
  }

  pub view-publish :
      (e : Published) (s : h.State)
      → view h (h.publish e s) ≡ record (view h s) { emitted = (view h s).emitted ++ (e ∷ []) }
  view-publish e s = λ i. record {
    organizer = h.get-publish (instance_slot admin) e s i;
    supply = h.get-publish (instance_slot max_tix) e s i;
    cost = h.get-publish (instance_slot price) e s i;
    event = h.get-publish (instance_slot evt_name) e s i;
    ceiling = h.get-publish (instance_slot maxresale) e s i;
    minted = h.get-publish (instance_slot next_id) e s i;
    tickets = fun_ext (λ j. h.get-publish (persistent_slot (ticket j)) e s) i;
    emitted = h.events-publish e s i;
    code = h.wasm-publish e s i;
  }

  pub view-update_wasm :
      (w : ℕ) (s : h.State) → view h (h.update_wasm w s) ≡ record (view h s) { code = some w }
  view-update_wasm w s = λ i. record {
    organizer = h.get-update_wasm (instance_slot admin) w s i;
    supply = h.get-update_wasm (instance_slot max_tix) w s i;
    cost = h.get-update_wasm (instance_slot price) w s i;
    event = h.get-update_wasm (instance_slot evt_name) w s i;
    ceiling = h.get-update_wasm (instance_slot maxresale) w s i;
    minted = h.get-update_wasm (instance_slot next_id) w s i;
    tickets = fun_ext (λ j. h.get-update_wasm (persistent_slot (ticket j)) w s) i;
    emitted = h.events-update_wasm w s i;
    code = h.wasm-update_wasm w s i;
  }

pub ruleset view_laws = (
  view-set_admin, view-set_max_tix, view-set_price, view-set_evt_name, view-set_maxresale,
  view-set_next_id, view-set_ticket, view-publish, view-update_wasm,
)
