-- ===== src/Ticket/View.antt =====
-- What can be seen of the ticket contract's storage through its keys.
use octraban_contract.Common.{ℕ, Option, List, String, ◌==◌, if◌then◌else◌}
use octraban_contract.Common.Int.{ℤ}
use octraban_contract.Host.{Host, instance_slot, persistent_slot}
use octraban_contract.Ticket.Types.{
  Address, admin, max_tix, price, next_id, evt_name, maxresale, ticket, Ticket, Value, Published,
}
pub mod Laws

pub record View : Type 0 where
  pub organizer : Option Address
  pub supply : Option ℕ
  pub cost : Option ℤ
  pub event : Option String
  pub ceiling : Option ℤ
  pub minted : Option ℕ
  pub tickets : ℕ → Option Ticket
  pub emitted : List Published
  pub code : Option ℕ

abbrev pub view : (h : Host Value Published) → h.State → View
view h s = record {
  organizer = h.get (instance_slot admin) s;
  supply = h.get (instance_slot max_tix) s;
  cost = h.get (instance_slot price) s;
  event = h.get (instance_slot evt_name) s;
  ceiling = h.get (instance_slot maxresale) s;
  minted = h.get (instance_slot next_id) s;
  tickets = λ id. h.get (persistent_slot (ticket id)) s;
  emitted = h.events s;
  code = h.wasm s;
}

-- A map with the value at one key replaced.
abbrev pub update {ℓ} : {A : Type ℓ} → (ℕ → A) → ℕ → A → ℕ → A
update f k v j = if k == j then v else f j
