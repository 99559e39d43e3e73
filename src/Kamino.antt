-- ===== src/Kamino.antt =====
-- instructions/kamino_lend_staking: the vault's tokens are lent through Kamino on a client's word.
pub mod Accounts
pub mod Deposit
pub mod Redeem
pub mod Balances
pub mod Effects
pub mod Success
