-- ===== src/Ticket/Types.antt =====
-- ticket/src/lib.rs, the data. Addresses and wasm hashes are only compared, so they are numbers;
-- prices are signed, and only compared too.
use octraban_contract.Common.{ℕ, Bool, true, false, String, List}
use octraban_contract.Common.Int.{ℤ}

abbrev pub Address : Type 0
Address = ℕ

-- The storage keys: symbols in the instance storage, ticket ids in the persistent storage.
pub data Key : Type 0 where
  admin max_tix price next_id evt_name maxresale : Key
  ticket : ℕ → Key

-- `enum TicketStatus`.
pub data TicketStatus : Type 0 where
  valid used transferred : TicketStatus

-- `==` on statuses.
abbrev pub same_status : TicketStatus → TicketStatus → Bool
same_status valid valid = true
same_status used used = true
same_status transferred transferred = true
same_status _ _ = false

-- `struct Ticket`.
pub record Ticket : Type 0 where
  pub id : ℕ
  pub owner : Address
  pub event_name : String
  pub status : TicketStatus
  pub original_price : ℤ
  pub max_resale_price : ℤ

-- `enum Error`.
pub data Error : Type 0 where
  not_found not_initialized already_initialized negative_price price_overflow
        price_exceeds_ceiling :
      Error

-- The type at which the code stores and loads the value of each key.
abbrev pub Value : Key → Type 0
Value admin = Address
Value max_tix = ℕ
Value price = ℤ
Value next_id = ℕ
Value evt_name = String
Value maxresale = ℤ
Value (ticket _) = Ticket

-- A component of the topics or of the data of a published event.
pub data Val : Type 0 where
  symbol : String → Val
  address bytes32 u64 : ℕ → Val

pub record Published : Type 0 where
  pub topics : List Val
  pub payload : Val
