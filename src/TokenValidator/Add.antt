-- ===== src/TokenValidator/Add.antt =====
-- add_token_to_whitelist.rs: a member of the admin role lists a token with its precision.
use ithaca_smart_contract_an.Base.{ℕ, [], ◌∷◌, List, str_eq}
use ithaca_smart_contract_an.Program.Errors.{
  Result, ok, ◌>>=◌, ◌>>◌, require, access_control, AccessControlError,
}
use ithaca_smart_contract_an.Program.Roles.{admin, as_str}
use ithaca_smart_contract_an.Program.State.{
  Pubkey, AccessController, Role, Member, TokenValidator, WhitelistedToken, Mint,
  zero_whitelisted_token,
}
use ithaca_smart_contract_an.Program.Space.{whitelisted_token_space, whitelisted_token_len}
use ithaca_smart_contract_an.Program.Runtime.{
  Runtime, Account, Seed, text, key, init, canonical_bump, set_inner, exit, loaded,
}
use ithaca_smart_contract_an.Program.Checks.{
  check_access_controller, check_role_account, check_member, check_token_validator, check_mint,
}

pub record AddTokenToWhitelist : Type 0 where
  pub admin : Pubkey
  pub access_controller : Account AccessController
  pub role : Account Role
  pub member : Account Member
  pub token_validator : Account TokenValidator
  pub new_token_to_whitelist : Account Mint
  pub whitelisted_token : Account WhitelistedToken

abbrev pub seeds : AddTokenToWhitelist → List Seed
seeds ctx =
    text "whitelisted_token"
    ∷ key ctx.token_validator.address
    ∷ key ctx.new_token_to_whitelist.address
    ∷ []

unfoldable pub try_accounts : Runtime → AddTokenToWhitelist → Result AddTokenToWhitelist
unfolding init as_str check_access_controller check_role_account check_member check_token_validator
    check_mint
try_accounts rt ctx = do
  loaded ctx.access_controller
  loaded ctx.role
  loaded ctx.member
  loaded ctx.token_validator
  loaded ctx.new_token_to_whitelist
  account ← init rt (seeds ctx) whitelisted_token_space zero_whitelisted_token ctx.whitelisted_token
  check_access_controller rt ctx.access_controller
  check_role_account rt ctx.access_controller (as_str admin) ctx.role
  check_member rt ctx.role ctx.admin ctx.member
  check_token_validator rt ctx.access_controller ctx.token_validator
  check_mint ctx.new_token_to_whitelist
  ok (record ctx { whitelisted_token = account })

-- `AddTokenToWhitelist::add_token_to_whitelist`
unfoldable pub handler : AddTokenToWhitelist → ℕ → ℕ → Result AddTokenToWhitelist
unfolding as_str
handler self bump token_precision = do
  require (str_eq self.role.inner.role (as_str admin))
      (access_control AccessControlError.unauthorized_admin)
  ok (record self {
    whitelisted_token = set_inner self.whitelisted_token (record {
      token_mint = self.new_token_to_whitelist.address;
      token_decimals = self.new_token_to_whitelist.inner.decimals;
      token_precision = token_precision;
      bump = bump;
    });
  })

unfoldable pub add_token_to_whitelist :
    Runtime → AddTokenToWhitelist → ℕ → Result AddTokenToWhitelist
add_token_to_whitelist rt ctx token_precision = do
  self ← try_accounts rt ctx
  self' ← handler self (canonical_bump rt (seeds self)) token_precision
  exit whitelisted_token_len self'.whitelisted_token
  ok self'
