-- ===== src/Fundlock/Withdraw.antt =====
-- withdraw_fundlock.rs: a client queues a withdrawal from the balance.
use ithaca_smart_contract_an.Base.{ℕ, ℤ, ◌++◌, [], ◌∷◌, length, ltb, leb}
use ithaca_smart_contract_an.Program.Errors.{
  Result, ok, ◌>>=◌, ◌>>◌, require, fundlock, FundlockError,
}
use ithaca_smart_contract_an.Program.Words.{add_u64, sub_u64}
use ithaca_smart_contract_an.Program.Roles.{allowed_withdrawal_limit}
use ithaca_smart_contract_an.Program.Space.{client_balance_len, withdrawals_len}
use ithaca_smart_contract_an.Program.Runtime.{
  load_programs, Runtime, loaded, seeds_bump, seeds_canonical, set_inner, exit,
}
use ithaca_smart_contract_an.Fundlock.Accounts.{
  FundlockAccounts, vault_seeds, client_balance_seeds, withdrawals_seeds, check_token_account,
  check_client_ata, check_listing,
}

-- The attributes of the withdrawal's context; those of the release's are the same.
unfoldable pub try_accounts : Runtime → FundlockAccounts → Result (Unit {0})
try_accounts rt ctx = do
  loaded ctx.access_controller
  loaded ctx.token_validator
  loaded ctx.fundlock
  loaded ctx.token
  loaded ctx.whitelisted_token
  loaded ctx.fundlock_token_vault
  loaded ctx.client_balance
  loaded ctx.client_ata
  loaded ctx.withdrawals
  load_programs rt ctx.system_program ctx.token_program
  check_listing rt ctx
  loaded ctx.fundlock_token_vault
  seeds_canonical rt (vault_seeds ctx) ctx.fundlock_token_vault.address
  check_token_account ctx.fundlock_token_vault ctx.token.address ctx.fundlock.address
  loaded ctx.client_balance
  seeds_bump rt (client_balance_seeds ctx) ctx.client_balance.inner.bump ctx.client_balance.address
  check_client_ata ctx
  loaded ctx.withdrawals
  seeds_bump rt (withdrawals_seeds ctx) ctx.withdrawals.inner.bump ctx.withdrawals.address

-- `WithdrawFundlock::withdraw_fundlock`, at the time `unix_timestamp`
unfoldable pub handler : FundlockAccounts → ℤ → ℕ → Result FundlockAccounts
unfolding add_u64 sub_u64
handler self unix_timestamp amount = do
  require (ltb 0 amount) (fundlock FundlockError.amount_zero)
  require (leb amount self.client_balance.inner.amount) (fundlock FundlockError.insufficient_funds)
  require (ltb (length self.withdrawals.inner.withdrawal_queue) allowed_withdrawal_limit)
      (fundlock FundlockError.withdrawal_limit_reached)
  balance ← sub_u64 self.client_balance.inner.amount amount
  active ← add_u64 self.withdrawals.inner.active_withdrawals_amount amount
  ok (record self {
    client_balance = set_inner self.client_balance (record {
      amount = balance;
      token = self.token.address;
      client = self.client;
      client_ata = self.client_ata.address;
      collateral_amount = self.client_balance.inner.collateral_amount;
      bump = self.client_balance.inner.bump;
    });
    withdrawals = set_inner self.withdrawals (record self.withdrawals.inner {
      withdrawal_queue =
          self.withdrawals.inner.withdrawal_queue
          ++ record { amount = amount; timestamp = unix_timestamp } ∷ [];
      active_withdrawals_amount = active;
      client = self.client;
    });
  })

unfoldable pub withdraw_fundlock : Runtime → FundlockAccounts → ℤ → ℕ → Result FundlockAccounts
withdraw_fundlock rt ctx unix_timestamp amount = do
  try_accounts rt ctx
  self ← handler ctx unix_timestamp amount
  exit client_balance_len self.client_balance
  exit (withdrawals_len self.withdrawals.inner) self.withdrawals
  ok self
