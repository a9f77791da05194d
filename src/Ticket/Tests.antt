-- ===== src/Ticket/Tests.antt =====
-- The ticket contract on a concrete host, and the theorems at concrete inputs.
mod Model
mod Witnesses
mod FuzzWitnesses
mod SaleWitnesses
