-- ===== src/Ledger.antt =====
-- instructions/ledger and the two ledger instructions of lib.rs: the ledger of a pair of tokens,
-- the positions on its contracts, and the settlement of fund movements.
pub mod Init
pub mod Positions
pub mod Funding
pub mod Settle
pub mod Movements
