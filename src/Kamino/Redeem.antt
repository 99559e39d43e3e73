-- ===== src/Kamino/Redeem.antt =====
-- reedem_kamino.rs: collateral of the client goes back to Kamino, and the client is credited with
-- the liquidity that the vault receives.
use ithaca_smart_contract_an.Base.{ℕ, ltb, leb}
use ithaca_smart_contract_an.Program.Errors.{
  Result, ok, ◌>>=◌, ◌>>◌, require, expect, or_called_program, fundlock, FundlockError,
}
use ithaca_smart_contract_an.Program.Words.{add_u64, sub_u64}
use ithaca_smart_contract_an.Program.Space.{client_balance_len}
use ithaca_smart_contract_an.Program.Runtime.{
  Runtime, loaded, load_programs, seeds_canonical, set_inner, exit,
}
use ithaca_smart_contract_an.Program.Tokens.{TokenProgram}
use ithaca_smart_contract_an.Fundlock.Accounts.{check_token_account}
use ithaca_smart_contract_an.Kamino.Accounts.{
  KaminoAccounts, KaminoProgram, collateral_vault_seeds, reserve_accounts, check_client_accounts,
  check_reserve_collateral_token, load_client_accounts, load_kamino_program, check_instructions,
}

module _ {ℓ} {S : Type ℓ} (tp : TokenProgram S) (kp : KaminoProgram S) where
  unfoldable pub try_accounts : Runtime → KaminoAccounts → Result (Unit {0})
  unfolding check_client_accounts check_reserve_collateral_token load_client_accounts load_programs
      load_kamino_program check_instructions
  try_accounts rt ctx = do
    load_client_accounts ctx
    load_programs rt ctx.system_program ctx.token_program
    loaded ctx.reserve_collateral_token
    loaded ctx.fundlock_collateral_vault
    load_kamino_program kp ctx
    check_client_accounts rt ctx
    check_reserve_collateral_token ctx
    seeds_canonical rt (collateral_vault_seeds ctx) ctx.fundlock_collateral_vault.address
    check_token_account ctx.fundlock_collateral_vault ctx.reserve_collateral_token.address
        ctx.fundlock.address
    check_instructions kp ctx

  -- `ReedemKamino::redeem_kamino`
  unfoldable pub handler : KaminoAccounts → S → ℕ → Result (KaminoAccounts × S)
  unfolding add_u64 sub_u64
  handler self s amount = do
    require (ltb 0 amount) (fundlock FundlockError.amount_zero)
    require (leb amount self.client_balance.inner.collateral_amount)
        (fundlock FundlockError.insufficient_funds)
    s' ← expect (or_called_program (kp.redeem_reserve_collateral s (reserve_accounts self) amount))
    withdraw_liquidity_amount ←
        sub_u64 (tp.amount s' self.fundlock_token_vault.address)
          (tp.amount s self.fundlock_token_vault.address)
    collateral ← sub_u64 self.client_balance.inner.collateral_amount amount
    balance ← add_u64 self.client_balance.inner.amount withdraw_liquidity_amount
    ok (
      record self {
        client_balance =
            set_inner self.client_balance (record self.client_balance.inner {
              collateral_amount = collateral;
              amount = balance;
            });
      },
      s',
    )

  unfoldable pub redeem_kamino : Runtime → KaminoAccounts → S → ℕ → Result (KaminoAccounts × S)
  redeem_kamino rt ctx s amount = do
    try_accounts rt ctx
    done ← handler ctx s amount
    exit client_balance_len done.0.client_balance
    ok done
