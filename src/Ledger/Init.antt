-- ===== src/Ledger/Init.antt =====
-- init_ledger.rs: a member of the admin role opens a ledger for an underlying and a strike token.
pub mod Multipliers
use ithaca_smart_contract_an.Base.{ℕ, [], ◌∷◌, List, str_eq}
use ithaca_smart_contract_an.Program.Errors.{
  Result, ok, ◌>>=◌, ◌>>◌, require, access_control, AccessControlError,
}
use ithaca_smart_contract_an.Program.Words.{sub_u64, pow10_i64}
use ithaca_smart_contract_an.Program.Roles.{admin, as_str}
use ithaca_smart_contract_an.Program.State.{
  Pubkey, AccessController, Role, Member, TokenValidator, WhitelistedToken, Fundlock, Mint, Ledger,
  zero_ledger,
}
use ithaca_smart_contract_an.Program.Space.{ledger_space, ledger_len}
use ithaca_smart_contract_an.Program.Runtime.{
  Runtime, Account, Seed, text, key, init, canonical_bump, set_inner, exit, loaded,
}
use ithaca_smart_contract_an.Program.Checks.{
  check_access_controller, check_role_account, check_member, check_token_validator, check_fundlock,
  check_mint, check_whitelisted_token,
}

pub record InitLedger : Type 0 where
  pub admin : Pubkey
  pub access_controller : Account AccessController
  pub role : Account Role
  pub member : Account Member
  pub token_validator : Account TokenValidator
  pub fundlock : Account Fundlock
  pub underlying_token : Account Mint
  pub whitelisted_underlying_token : Account WhitelistedToken
  pub strike_token : Account Mint
  pub whitelisted_strike_token : Account WhitelistedToken
  pub ledger : Account Ledger

abbrev pub ledger_seeds : InitLedger → List Seed
ledger_seeds ctx =
    text "ledger"
    ∷ key ctx.access_controller.address
    ∷ key ctx.token_validator.address
    ∷ key ctx.underlying_token.address
    ∷ key ctx.strike_token.address
    ∷ []

unfoldable pub try_accounts : Runtime → InitLedger → Result InitLedger
unfolding init as_str check_access_controller check_role_account check_member check_token_validator
    check_fundlock check_mint check_whitelisted_token
try_accounts rt ctx = do
  loaded ctx.access_controller
  loaded ctx.role
  loaded ctx.member
  loaded ctx.token_validator
  loaded ctx.fundlock
  loaded ctx.underlying_token
  loaded ctx.whitelisted_underlying_token
  loaded ctx.strike_token
  loaded ctx.whitelisted_strike_token
  account ← init rt (ledger_seeds ctx) ledger_space zero_ledger ctx.ledger
  check_access_controller rt ctx.access_controller
  check_role_account rt ctx.access_controller (as_str admin) ctx.role
  check_member rt ctx.role ctx.admin ctx.member
  check_token_validator rt ctx.access_controller ctx.token_validator
  check_fundlock rt ctx.access_controller ctx.token_validator ctx.fundlock
  check_mint ctx.underlying_token
  check_whitelisted_token rt ctx.token_validator ctx.underlying_token
      ctx.whitelisted_underlying_token
  check_mint ctx.strike_token
  check_whitelisted_token rt ctx.token_validator ctx.strike_token ctx.whitelisted_strike_token
  ok (record ctx { ledger = account })

-- `InitLedger::init_ledger`; the differences are taken on u8.
unfoldable pub handler : InitLedger → ℕ → Result InitLedger
unfolding as_str sub_u64 pow10_i64
handler self bump = do
  require (str_eq self.role.inner.role (as_str admin))
      (access_control AccessControlError.unauthorized_admin)
  strike_token_diff ←
      sub_u64 self.strike_token.inner.decimals self.whitelisted_strike_token.inner.token_precision
  underlying_token_diff ←
      sub_u64 self.underlying_token.inner.decimals
        self.whitelisted_underlying_token.inner.token_precision
  underlying_multiplier ← pow10_i64 underlying_token_diff
  strike_multiplier ← pow10_i64 strike_token_diff
  ok (record self {
    ledger = set_inner self.ledger (record {
      access_controller = self.access_controller.address;
      token_validator = self.token_validator.address;
      fundlock = self.fundlock.address;
      underlying_token = self.underlying_token.address;
      strike_token = self.strike_token.address;
      underlying_multiplier = underlying_multiplier;
      strike_multiplier = strike_multiplier;
      bump = bump;
    });
  })

unfoldable pub init_ledger : Runtime → InitLedger → Result InitLedger
init_ledger rt ctx = do
  self ← try_accounts rt ctx
  self' ← handler self (canonical_bump rt (ledger_seeds self))
  exit ledger_len self'.ledger
  ok self'
