-- ===== src/Fundlock/Release.antt =====
-- release_fundlock.rs: a queued withdrawal whose release lock has run out is paid to the client.
use ithaca_smart_contract_an.Base.{ℕ, ℤ, erase_idx, get_elem?, length, ltb, leb, ltb_ℤ}
use ithaca_smart_contract_an.Program.Errors.{
  Result, ok, ◌>>=◌, ◌>>◌, require, expect, or_panic, or_called_program, fundlock, FundlockError,
}
use ithaca_smart_contract_an.Program.Words.{sub_u64, add_i64}
use ithaca_smart_contract_an.Program.Space.{withdrawals_len}
use ithaca_smart_contract_an.Program.Runtime.{
  load_programs, Runtime, loaded, seeds_bump, seeds_canonical, set_inner, exit,
}
use ithaca_smart_contract_an.Program.Tokens.{TokenProgram}
use ithaca_smart_contract_an.Fundlock.Accounts.{
  FundlockAccounts, vault_seeds, client_balance_seeds, withdrawals_seeds, check_token_account,
  check_client_ata, check_listing,
}

unfoldable pub try_accounts : Runtime → FundlockAccounts → Result (Unit {0})
try_accounts rt ctx = do
  loaded ctx.access_controller
  loaded ctx.token_validator
  loaded ctx.fundlock
  loaded ctx.token
  loaded ctx.whitelisted_token
  loaded ctx.fundlock_token_vault
  loaded ctx.client_balance
  loaded ctx.client_ata
  loaded ctx.withdrawals
  load_programs rt ctx.system_program ctx.token_program
  check_listing rt ctx
  loaded ctx.fundlock_token_vault
  seeds_canonical rt (vault_seeds ctx) ctx.fundlock_token_vault.address
  check_token_account ctx.fundlock_token_vault ctx.token.address ctx.fundlock.address
  loaded ctx.client_balance
  seeds_bump rt (client_balance_seeds ctx) ctx.client_balance.inner.bump ctx.client_balance.address
  check_client_ata ctx
  loaded ctx.withdrawals
  seeds_bump rt (withdrawals_seeds ctx) ctx.withdrawals.inner.bump ctx.withdrawals.address

module _ {ℓ} {S : Type ℓ} (tp : TokenProgram S) where
  -- `ReleaseFundlock::release_fundlock`, at the time `unix_timestamp`
  unfoldable pub handler : FundlockAccounts → S → ℤ → ℕ → Result (FundlockAccounts × S)
  handler self s unix_timestamp index = do
    require (ltb index (length self.withdrawals.inner.withdrawal_queue))
        (fundlock FundlockError.invalid_index)
    withdrawal ← or_panic (get_elem? self.withdrawals.inner.withdrawal_queue index)
    release_time ← add_i64 withdrawal.timestamp self.fundlock.inner.release_lock
    require (ltb_ℤ release_time unix_timestamp) (fundlock FundlockError.release_lock_active)
    require (leb withdrawal.amount (tp.amount s self.fundlock_token_vault.address))
        (fundlock FundlockError.insufficient_funds_in_vault)
    s' ← expect (
        or_called_program (
          tp.transfer s self.fundlock_token_vault.address self.client_ata.address
            self.fundlock.address withdrawal.amount))
    active ← sub_u64 self.withdrawals.inner.active_withdrawals_amount withdrawal.amount
    ok (
      record self {
        withdrawals = set_inner self.withdrawals (record self.withdrawals.inner {
          withdrawal_queue = erase_idx self.withdrawals.inner.withdrawal_queue index;
          active_withdrawals_amount = active;
        });
      },
      s',
    )

  unfoldable pub release_fundlock :
      Runtime → FundlockAccounts → S → ℤ → ℕ → Result (FundlockAccounts × S)
  release_fundlock rt ctx s unix_timestamp index = do
    try_accounts rt ctx
    done ← handler ctx s unix_timestamp index
    exit (withdrawals_len done.0.withdrawals.inner) done.0.withdrawals
    ok done
