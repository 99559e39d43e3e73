-- ===== src/Fundlock/Accounts.antt =====
-- The accounts that the deposit, the withdrawal and the release work on (the three contexts have
-- the same fields), and the attributes that they share.
use ithaca_smart_contract_an.Base.{ℕ, ◌+◌, if◌then◌else◌, ◌&&◌, ◌==◌, List, [], ◌∷◌}
use ithaca_smart_contract_an.Program.Errors.{Result, ◌>>◌, require, anchor, AnchorError}
use ithaca_smart_contract_an.Program.State.{
  Pubkey, AccessController, TokenValidator, WhitelistedToken, Fundlock, ClientBalance,
  WithdrawalState, Withdrawals, Mint, TokenAccount,
}
use ithaca_smart_contract_an.Program.Runtime.{Runtime, Account, Seed, text, key, loaded}
use ithaca_smart_contract_an.Program.Checks.{
  check_access_controller, check_token_validator, check_fundlock, check_mint,
  check_whitelisted_token,
}

pub record FundlockAccounts : Type 0 where
  pub client : Pubkey
  pub access_controller : Account AccessController
  pub token_validator : Account TokenValidator
  pub fundlock : Account Fundlock
  pub token : Account Mint
  pub whitelisted_token : Account WhitelistedToken
  pub fundlock_token_vault : Account TokenAccount
  pub client_balance : Account ClientBalance
  pub client_ata : Account TokenAccount
  pub withdrawals : Account Withdrawals
  pub system_program : Pubkey
  pub token_program : Pubkey

-- The seeds of the three accounts that belong to a token or to a client.
abbrev pub vault_seeds : FundlockAccounts → List Seed
vault_seeds ctx =
    text "fundlock_token_vault" ∷ key ctx.fundlock.address ∷ key ctx.token.address ∷ []

abbrev pub client_balance_seeds : FundlockAccounts → List Seed
client_balance_seeds ctx =
    text "client_balance" ∷ key ctx.fundlock_token_vault.address ∷ key ctx.client_ata.address ∷ []

abbrev pub withdrawals_seeds : FundlockAccounts → List Seed
withdrawals_seeds ctx =
    text "withdrawals" ∷ key ctx.fundlock.address ∷ key ctx.client_balance.address ∷ []

-- `token::mint = …, token::authority = …`
abbrev pub check_token_account : Account TokenAccount → Pubkey → Pubkey → Result (Unit {0})
check_token_account a mint authority =
    require (a.inner.mint == mint) (anchor AnchorError.constraint_token_mint)
    >> require (a.inner.owner == authority) (anchor AnchorError.constraint_token_owner)

-- constraint = client_ata.mint == token.key() && client_ata.owner == client.key()
abbrev pub check_client_ata : FundlockAccounts → Result (Unit {0})
check_client_ata ctx =
    loaded ctx.client_ata
    >> require
        (ctx.client_ata.inner.mint == ctx.token.address && ctx.client_ata.inner.owner == ctx.client)
        (anchor AnchorError.constraint_raw)

module _ (rt : Runtime) where
  -- The attributes of `access_controller` to `whitelisted_token`, the same in all three contexts.
  unfoldable pub check_listing : FundlockAccounts → Result (Unit {0})
  unfolding check_access_controller check_token_validator check_fundlock check_mint
      check_whitelisted_token
  check_listing ctx = do
    check_access_controller rt ctx.access_controller
    check_token_validator rt ctx.access_controller ctx.token_validator
    check_fundlock rt ctx.access_controller ctx.token_validator ctx.fundlock
    check_mint ctx.token
    check_whitelisted_token rt ctx.token_validator ctx.token ctx.whitelisted_token

-- The amounts that wait in a queue.
abbrev pub queue_total : List WithdrawalState → ℕ
queue_total [] = 0
queue_total (w ∷ q) = w.amount + queue_total q

-- What a client can still get out of the vault: the balance and the active withdrawals, of the
-- accounts that exist.
abbrev pub claim : FundlockAccounts → ℕ
claim a =
    (if a.client_balance.exists then a.client_balance.inner.amount else 0)
    + (if a.withdrawals.exists then a.withdrawals.inner.active_withdrawals_amount else 0)
