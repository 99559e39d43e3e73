-- ===== src/Exchange.antt =====
-- The fundlock, the ledger and lending together: the settlements of the ledger and the two Kamino
-- instructions among the fundlock's operations on one vault.
pub mod Sides
pub mod Amounts
pub mod Times
pub mod Clock
pub mod History
pub mod Queues
pub mod Payout
pub mod Lending
