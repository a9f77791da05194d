-- ===== src/Ticket/Fuzz/Targets.antt =====
-- ticket/fuzz/fuzz_targets: what each target does with the bytes. It ends in `fail` where an
-- assertion fails or the arithmetic of the target itself overflows.
use octraban_contract.Common.{
  ℕ, ◌%◌, not, Option, none, some, List, length, ltb, ◌==◌, if◌then◌else◌, ⊤,
}
use octraban_contract.Common.Int.{ℤ, pos, ltb_ℤ}
use octraban_contract.Common.Bytes.{
  byte_at, u64_at, i128_at, checked_abs, saturating_add_u64, saturating_succ, min_ℤ,
}
use octraban_contract.Host.Script.{
  ◌>>=◌, ◌>>◌, finish, fail, client, try, try_ignored, run_call, assert, is_err,
}
use octraban_contract.Ticket.Types.{Address, used, same_status}
use octraban_contract.Ticket.Contract.{Call}
use octraban_contract.Ticket.Client.{TicketScript}

-- An arithmetic operation that panics on overflow.
abbrev pub no_overflow : {A : Type 0} → Option A → TicketScript A
no_overflow none = fail
no_overflow (some a) = finish a

-- The addresses that a target generates.
pub record Cast : Type 0 where
  pub organizer : Address
  pub buyer : Address
  pub new_owner : Address
  pub impostor : Address

module _ (cast : Cast) where
  -- fuzz_mint.rs.
  unfoldable pub fuzz_mint : List ℕ → TicketScript ⊤
  fuzz_mint bytes = if ltb (length bytes) 25 then finish tt else (do
    let max_tickets = saturating_add_u64 (u64_at bytes 0) 1
    price ← no_overflow (checked_abs (i128_at bytes 8))
    let max_resale = saturating_succ price
    try_ignored (Call.initialize cast.organizer "Fuzz Event" max_tickets price max_resale)
    try_ignored (Call.mint_ticket cast.organizer cast.buyer)
    _ ← client Call.tickets_sold
    finish tt)

  -- fuzz_transfer.rs.
  unfoldable pub fuzz_transfer : List ℕ → TicketScript ⊤
  fuzz_transfer bytes =
      if ltb (length bytes) 16
      then finish tt
      else (let sale_price = i128_at bytes 0 in
          let max_resale = pos 75000000 in
          if ltb_ℤ sale_price (pos 0) then finish tt else (do
            run_call (Call.initialize cast.organizer "Fuzz Transfer" 10 (pos 1000) max_resale)
            run_call (Call.mint_ticket cast.organizer cast.buyer)
            result ← try (Call.transfer_ticket cast.buyer cast.new_owner 0 sale_price)
            (if ltb_ℤ max_resale sale_price
                then assert (is_err result)
                else assert (not (is_err result)))))

  -- fuzz_verify.rs: mint, and verify the ticket.
  verify_once : TicketScript ⊤
  verify_once = do
    run_call (Call.mint_ticket cast.organizer cast.buyer)
    admitted ← client (Call.verify_ticket cast.organizer 0)
    assert admitted
    t ← client (Call.get_ticket 0)
    assert (same_status t.status used)

  -- fuzz_verify.rs: the second scan of a ticket.
  verify_twice : TicketScript ⊤
  verify_twice = do
    run_call (Call.mint_ticket cast.organizer cast.buyer)
    first ← client (Call.verify_ticket cast.organizer 0)
    assert first
    second ← client (Call.verify_ticket cast.organizer 0)
    assert (not second)

  -- fuzz_verify.rs: a verifier other than the organizer.
  verify_by_impostor : TicketScript ⊤
  verify_by_impostor = do
    run_call (Call.mint_ticket cast.organizer cast.buyer)
    result ← try (Call.verify_ticket cast.impostor 0)
    assert (is_err result)

  -- fuzz_verify.rs.
  unfoldable pub fuzz_verify : List ℕ → TicketScript ⊤
  unfolding verify_once verify_twice verify_by_impostor
  fuzz_verify bytes = if ltb (length bytes) 9 then finish tt else (do
    let ticket_id = u64_at bytes 0
    let path = byte_at bytes 8 % 4
    run_call (Call.initialize cast.organizer "Fuzz Verify" 5 (pos 1000) (pos 2000))
    (if path == 0
        then try_ignored (Call.verify_ticket cast.organizer ticket_id)
        else if path == 1
        then verify_once
        else if path == 2
        then verify_twice
        else verify_by_impostor))

  -- fuzz_full_lifecycle.rs: mint, then verify.
  lifecycle_verify : TicketScript ⊤
  lifecycle_verify = do
    admitted ← client (Call.verify_ticket cast.organizer 0)
    assert admitted
    t ← client (Call.get_ticket 0)
    assert (same_status t.status used)

  -- fuzz_full_lifecycle.rs: a ticket that was used is not transferred.
  lifecycle_transfer_used : ℤ → TicketScript ⊤
  lifecycle_transfer_used sale_price = do
    run_call (Call.verify_ticket cast.organizer 0)
    result ← try (Call.transfer_ticket cast.buyer cast.new_owner 0 sale_price)
    assert (is_err result)

  -- fuzz_full_lifecycle.rs.
  unfoldable pub fuzz_full_lifecycle : List ℕ → TicketScript ⊤
  unfolding lifecycle_verify lifecycle_transfer_used
  fuzz_full_lifecycle bytes = if ltb (length bytes) 17 then finish tt else (do
    let path = byte_at bytes 0 % 4
    sale_price ← no_overflow (checked_abs (i128_at bytes 1))
    run_call (Call.initialize cast.organizer "Lifecycle Fuzz" 5 (pos 1000) (pos 100000))
    run_call (Call.mint_ticket cast.organizer cast.buyer)
    let transfer = λ (price : ℤ). Call.transfer_ticket cast.buyer cast.new_owner 0 price
    (if path == 0
        then lifecycle_verify
        else if path == 1
        then try_ignored (transfer (min_ℤ sale_price (pos 100000)))
        else if path == 2
        then (do
          try_ignored (transfer sale_price)
          try_ignored (Call.verify_ticket cast.organizer 0))
        else lifecycle_transfer_used sale_price))
