-- ===== src/Fundlock/Deposit.antt =====
-- deposit_fundlock.rs: a client pays tokens into the vault and is credited with them.
use ithaca_smart_contract_an.Base.{ℕ, ◌==◌, ltb, true, if◌then◌else◌}
use ithaca_smart_contract_an.Program.Errors.{
  Result, ok, ◌>>=◌, ◌>>◌, require, or_called_program, fundlock, FundlockError, token_validator,
  TokenValidatorError,
}
use ithaca_smart_contract_an.Program.Words.{add_u64}
use ithaca_smart_contract_an.Program.State.{TokenAccount, zero_client_balance, zero_withdrawals}
use ithaca_smart_contract_an.Program.Space.{
  client_balance_space, withdrawals_space, client_balance_len, withdrawals_len,
}
use ithaca_smart_contract_an.Program.Runtime.{
  load_programs, Runtime, Account, init_if_needed, seeds_canonical, canonical_bump, set_inner, exit,
  loaded,
}
use ithaca_smart_contract_an.Program.Tokens.{TokenProgram}
use ithaca_smart_contract_an.Fundlock.Accounts.{
  FundlockAccounts, vault_seeds, client_balance_seeds, withdrawals_seeds, check_token_account,
  check_client_ata, check_listing,
}

pub record DepositFundlockBumps : Type 0 where
  pub client_balance : ℕ
  pub withdrawals : ℕ

module _ {ℓ} {S : Type ℓ} (tp : TokenProgram S) (rt : Runtime) where
  -- The vault is made on the first deposit of its token; later its mint and owner are checked.
  unfoldable pub open_vault : FundlockAccounts → S → Result (Account TokenAccount × S)
  open_vault ctx s = do
    seeds_canonical rt (vault_seeds ctx) ctx.fundlock_token_vault.address
    if ctx.fundlock_token_vault.exists
        then (check_token_account ctx.fundlock_token_vault ctx.token.address ctx.fundlock.address
            >> ok (ctx.fundlock_token_vault, s))
        else (or_called_program (
              tp.initialize_account s ctx.fundlock_token_vault.address ctx.token.address
                ctx.fundlock.address)
            >>= λ s'. ok (
              record ctx.fundlock_token_vault {
                exists = true;
                inner = record { mint = ctx.token.address; owner = ctx.fundlock.address };
              },
              s',
            ))

  unfoldable pub try_accounts : FundlockAccounts → S → Result (FundlockAccounts × S)
  try_accounts ctx s = do
    loaded ctx.access_controller
    loaded ctx.token_validator
    loaded ctx.fundlock
    loaded ctx.token
    loaded ctx.whitelisted_token
    loaded ctx.client_ata
    load_programs rt ctx.system_program ctx.token_program
    opened ← open_vault ctx s
    client_balance ←
        init_if_needed rt (client_balance_seeds ctx) client_balance_space zero_client_balance
          ctx.client_balance
    withdrawals ←
        init_if_needed rt (withdrawals_seeds ctx) withdrawals_space zero_withdrawals ctx.withdrawals
    check_listing rt ctx
    check_client_ata ctx
    ok (
      record ctx {
        fundlock_token_vault = opened.0;
        client_balance = client_balance;
        withdrawals = withdrawals;
      },
      opened.1,
    )

  abbrev pub bumps : FundlockAccounts → DepositFundlockBumps
  bumps ctx = record {
    client_balance = canonical_bump rt (client_balance_seeds ctx);
    withdrawals = canonical_bump rt (withdrawals_seeds ctx);
  }

module _ {ℓ} {S : Type ℓ} (tp : TokenProgram S) where
  -- `DepositFundlock::deposit_fundlock`
  unfoldable pub handler :
      FundlockAccounts → S → ℕ → DepositFundlockBumps → Result (FundlockAccounts × S)
  unfolding add_u64
  handler self s amount bumps = do
    require (ltb 0 amount) (fundlock FundlockError.amount_zero)
    require (self.whitelisted_token.inner.token_mint == self.token.address)
        (token_validator TokenValidatorError.token_not_whitelisted)
    s' ←
        or_called_program (
          tp.transfer s self.client_ata.address self.fundlock_token_vault.address self.client
            amount)
    balance ← add_u64 self.client_balance.inner.amount amount
    ok (
      record self {
        client_balance = set_inner self.client_balance (record {
          amount = balance;
          token = self.token.address;
          client = self.client;
          client_ata = self.client_ata.address;
          collateral_amount = self.client_balance.inner.collateral_amount;
          bump = bumps.client_balance;
        });
        withdrawals =
            set_inner self.withdrawals
              (record self.withdrawals.inner { bump = bumps.withdrawals; client = self.client });
      },
      s',
    )

  unfoldable pub deposit_fundlock :
      Runtime → FundlockAccounts → S → ℕ → Result (FundlockAccounts × S)
  deposit_fundlock rt ctx s amount = do
    ready ← try_accounts tp rt ctx s
    done ← handler ready.0 ready.1 amount (bumps tp rt ready.0)
    exit client_balance_len done.0.client_balance
    exit (withdrawals_len done.0.withdrawals.inner) done.0.withdrawals
    ok done
