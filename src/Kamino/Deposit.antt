-- ===== src/Kamino/Deposit.antt =====
-- deposit_kamino.rs: liquidity of the vault goes to Kamino, and the client is credited with the
-- collateral that comes back.
use ithaca_smart_contract_an.Base.{ℕ, true, ltb, leb, if◌then◌else◌}
use ithaca_smart_contract_an.Program.Errors.{
  Result, ok, ◌>>=◌, ◌>>◌, require, expect, or_called_program, fundlock, FundlockError,
}
use ithaca_smart_contract_an.Program.Words.{add_u64, sub_u64}
use ithaca_smart_contract_an.Program.State.{TokenAccount}
use ithaca_smart_contract_an.Program.Space.{client_balance_len}
use ithaca_smart_contract_an.Program.Runtime.{
  Runtime, Account, seeds_canonical, set_inner, exit, loaded, load_programs,
}
use ithaca_smart_contract_an.Program.Tokens.{TokenProgram}
use ithaca_smart_contract_an.Fundlock.Accounts.{check_token_account}
use ithaca_smart_contract_an.Kamino.Accounts.{
  KaminoAccounts, KaminoProgram, collateral_vault_seeds, reserve_accounts, check_client_accounts,
  check_reserve_collateral_token, load_client_accounts, load_kamino_program, check_instructions,
}

module _ {ℓ} {S : Type ℓ} (tp : TokenProgram S) (kp : KaminoProgram S) where
  -- The collateral vault is made on first use; later its mint and owner are checked.
  unfoldable pub open_collateral_vault :
      Runtime → KaminoAccounts → S → Result (Account TokenAccount × S)
  open_collateral_vault rt ctx s = do
    seeds_canonical rt (collateral_vault_seeds ctx) ctx.fundlock_collateral_vault.address
    if ctx.fundlock_collateral_vault.exists
        then (check_token_account ctx.fundlock_collateral_vault ctx.reserve_collateral_token.address
              ctx.fundlock.address
            >> ok (ctx.fundlock_collateral_vault, s))
        else (or_called_program (
              tp.initialize_account s ctx.fundlock_collateral_vault.address
                ctx.reserve_collateral_token.address ctx.fundlock.address)
            >>= λ s'. ok (
              record ctx.fundlock_collateral_vault {
                exists = true;
                inner = record {
                  mint = ctx.reserve_collateral_token.address;
                  owner = ctx.fundlock.address;
                };
              },
              s',
            ))

  unfoldable pub try_accounts : Runtime → KaminoAccounts → S → Result (KaminoAccounts × S)
  unfolding check_client_accounts check_reserve_collateral_token open_collateral_vault
      load_client_accounts load_programs load_kamino_program check_instructions
  try_accounts rt ctx s = do
    load_client_accounts ctx
    load_programs rt ctx.system_program ctx.token_program
    loaded ctx.reserve_collateral_token
    load_kamino_program kp ctx
    opened ← open_collateral_vault rt ctx s
    check_client_accounts rt ctx
    check_reserve_collateral_token ctx
    check_instructions kp ctx
    ok (record ctx { fundlock_collateral_vault = opened.0 }, opened.1)

  -- `DepositKamino::deposit_kamino`
  unfoldable pub handler : KaminoAccounts → S → ℕ → Result (KaminoAccounts × S)
  unfolding add_u64 sub_u64
  handler self s amount = do
    require (ltb 0 amount) (fundlock FundlockError.amount_zero)
    require (leb amount self.client_balance.inner.amount)
        (fundlock FundlockError.insufficient_funds)
    s' ← expect (or_called_program (kp.deposit_reserve_liquidity s (reserve_accounts self) amount))
    deposit_collateral_amount ←
        sub_u64 (tp.amount s' self.fundlock_collateral_vault.address)
          (tp.amount s self.fundlock_collateral_vault.address)
    collateral ← add_u64 self.client_balance.inner.collateral_amount deposit_collateral_amount
    ok (
      record self {
        client_balance =
            set_inner self.client_balance
              (record self.client_balance.inner { collateral_amount = collateral });
      },
      s',
    )

  unfoldable pub deposit_kamino : Runtime → KaminoAccounts → S → ℕ → Result (KaminoAccounts × S)
  deposit_kamino rt ctx s amount = do
    ready ← try_accounts rt ctx s
    done ← handler ready.0 ready.1 amount
    exit client_balance_len done.0.client_balance
    ok done
