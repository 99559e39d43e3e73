-- ===== src/Fundlock.antt =====
-- instructions/fundlock: deposits into the shared vault, queued withdrawals and their release.
pub mod Accounts
pub mod Init
pub mod Deposit
pub mod Withdraw
pub mod Release
pub mod Effects
pub mod Deposits
pub mod Credits
pub mod Solvency
pub mod Invariant
pub mod History
pub mod Amounts
pub mod Lifecycle
pub mod Drain
pub mod Success
pub mod Releases
