-- ===== src/Kamino/Accounts.antt =====
-- The accounts of the two Kamino instructions (the two contexts have the same fields), and the
-- Kamino program as a parameter.
use ithaca_smart_contract_an.Base.{ℕ, ◌&&◌, ◌==◌, List, [], ◌∷◌, Option}
use ithaca_smart_contract_an.Program.Errors.{Result, ◌>>◌, require, anchor, AnchorError}
use ithaca_smart_contract_an.Program.State.{
  Pubkey, AccessController, TokenValidator, WhitelistedToken, Fundlock, ClientBalance, Mint,
  TokenAccount,
}
use ithaca_smart_contract_an.Program.Runtime.{
  Runtime, Account, Seed, text, key, loaded, seeds_bump, seeds_canonical,
}
use ithaca_smart_contract_an.Program.Checks.{
  check_access_controller, check_token_validator, check_fundlock, check_mint,
  check_whitelisted_token,
}
use ithaca_smart_contract_an.Fundlock.Accounts.{check_token_account}

-- The accounts of a call of Kamino, of which the program passes on all.
pub record ReserveAccounts : Type 0 where
  pub owner : Pubkey
  pub reserve : Pubkey
  pub lending_market : Pubkey
  pub lending_market_authority : Pubkey
  pub reserve_liquidity_supply : Pubkey
  pub reserve_collateral_mint : Pubkey
  pub user_liquidity : Pubkey
  pub user_collateral : Pubkey
  pub collateral_token_program : Pubkey
  pub reserve_liquidity_mint : Pubkey
  pub liquidity_token_program : Pubkey
  pub instruction_sysvar_account : Pubkey

-- Kamino's program: its address, that of the sysvar of instructions, and the two instructions that
-- the program calls, on the state `S` of the token program. Nothing is assumed of what they do.
pub record KaminoProgram {ℓ} (S : Type ℓ) : Type ℓ where
  pub id : Pubkey
  pub instructions_id : Pubkey
  pub deposit_reserve_liquidity : S → ReserveAccounts → ℕ → Option S
  pub redeem_reserve_collateral : S → ReserveAccounts → ℕ → Option S

pub record KaminoAccounts : Type 0 where
  pub client : Pubkey
  pub access_controller : Account AccessController
  pub token_validator : Account TokenValidator
  pub fundlock : Account Fundlock
  pub token : Account Mint
  pub whitelisted_token : Account WhitelistedToken
  pub fundlock_token_vault : Account TokenAccount
  pub client_ata : Account TokenAccount
  pub client_balance : Account ClientBalance
  pub system_program : Pubkey
  pub token_program : Pubkey
  pub reserve : Pubkey
  pub lending_market : Pubkey
  pub lending_market_authority : Pubkey
  pub reserve_liquidity_supply : Pubkey
  pub reserve_collateral_token : Account Mint
  pub fundlock_collateral_vault : Account TokenAccount
  pub kamino_program : Pubkey
  pub instructions : Pubkey

abbrev pub collateral_vault_seeds : KaminoAccounts → List Seed
collateral_vault_seeds ctx =
    text "fundlock_collateral_vault"
    ∷ key ctx.fundlock_token_vault.address
    ∷ key ctx.reserve_collateral_token.address
    ∷ []

-- The accounts that a call names.
abbrev pub reserve_accounts : KaminoAccounts → ReserveAccounts
reserve_accounts self = record {
  owner = self.fundlock.address;
  reserve = self.reserve;
  lending_market = self.lending_market;
  lending_market_authority = self.lending_market_authority;
  reserve_liquidity_supply = self.reserve_liquidity_supply;
  reserve_collateral_mint = self.reserve_collateral_token.address;
  user_liquidity = self.fundlock_token_vault.address;
  user_collateral = self.fundlock_collateral_vault.address;
  collateral_token_program = self.token_program;
  reserve_liquidity_mint = self.token.address;
  liquidity_token_program = self.token_program;
  instruction_sysvar_account = self.instructions;
}

-- The accounts `access_controller` to `client_balance` are loaded, the same in both contexts.
unfoldable pub load_client_accounts : KaminoAccounts → Result (Unit {0})
load_client_accounts ctx = do
  loaded ctx.access_controller
  loaded ctx.token_validator
  loaded ctx.fundlock
  loaded ctx.token
  loaded ctx.whitelisted_token
  loaded ctx.fundlock_token_vault
  loaded ctx.client_ata
  loaded ctx.client_balance

-- The attributes of `access_controller` to `client_balance`, the same in both contexts.
unfoldable pub check_client_accounts : Runtime → KaminoAccounts → Result (Unit {0})
unfolding check_access_controller check_token_validator check_fundlock check_mint
    check_whitelisted_token
check_client_accounts rt ctx = do
  check_access_controller rt ctx.access_controller
  check_token_validator rt ctx.access_controller ctx.token_validator
  check_fundlock rt ctx.access_controller ctx.token_validator ctx.fundlock
  check_mint ctx.token
  check_whitelisted_token rt ctx.token_validator ctx.token ctx.whitelisted_token
  loaded ctx.fundlock_token_vault
  seeds_canonical rt
      (text "fundlock_token_vault" ∷ key ctx.fundlock.address ∷ key ctx.token.address ∷ [])
      ctx.fundlock_token_vault.address
  check_token_account ctx.fundlock_token_vault ctx.token.address ctx.fundlock.address
  loaded ctx.client_ata
  require
      (ctx.client_ata.inner.mint == ctx.token.address && ctx.client_ata.inner.owner == ctx.client)
      (anchor AnchorError.constraint_raw)
  loaded ctx.client_balance
  seeds_bump rt
      (text "client_balance"
        ∷ key ctx.fundlock_token_vault.address
        ∷ key ctx.client_ata.address
        ∷ [])
      ctx.client_balance.inner.bump ctx.client_balance.address

-- `reserve_collateral_token`: the attribute tests the decimals of `token`, as in the source.
unfoldable pub check_reserve_collateral_token : KaminoAccounts → Result (Unit {0})
unfolding check_mint
check_reserve_collateral_token ctx = do loaded ctx.reserve_collateral_token; check_mint ctx.token

-- `kamino_program: Program<'info, KLend>`, tested as it is loaded
unfoldable pub load_kamino_program {ℓ} :
    {S : Type ℓ} → KaminoProgram S → KaminoAccounts → Result (Unit {0})
load_kamino_program kp ctx =
    require (ctx.kamino_program == kp.id) (anchor AnchorError.invalid_program_id)

-- `instructions`, by its address
unfoldable pub check_instructions {ℓ} :
    {S : Type ℓ} → KaminoProgram S → KaminoAccounts → Result (Unit {0})
check_instructions kp ctx =
    require (ctx.instructions == kp.instructions_id) (anchor AnchorError.constraint_address)
