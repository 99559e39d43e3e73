-- ===== src/TokenValidator/Remove.antt =====
-- remove_token_from_whitelist.rs: a member of the admin role takes a token off the whitelist.
use ithaca_smart_contract_an.Program.Errors.{Result, ok, ◌>>◌}
use ithaca_smart_contract_an.Program.Roles.{admin, as_str}
use ithaca_smart_contract_an.Program.State.{
  Pubkey, AccessController, Role, Member, TokenValidator, WhitelistedToken, Mint,
}
use ithaca_smart_contract_an.Program.Runtime.{Runtime, Account, close, loaded}
use ithaca_smart_contract_an.Program.Checks.{
  check_access_controller, check_role_account, check_member, check_token_validator, check_mint,
  check_whitelisted_token,
}

pub record RemoveTokenFromWhitelist : Type 0 where
  pub admin : Pubkey
  pub access_controller : Account AccessController
  pub role : Account Role
  pub member : Account Member
  pub token_validator : Account TokenValidator
  pub token_to_remove : Account Mint
  pub whitelisted_token : Account WhitelistedToken

unfoldable pub try_accounts : Runtime → RemoveTokenFromWhitelist → Result (Unit {0})
unfolding as_str check_access_controller check_role_account check_member check_token_validator
    check_mint check_whitelisted_token
try_accounts rt ctx = do
  loaded ctx.access_controller
  loaded ctx.role
  loaded ctx.member
  loaded ctx.token_validator
  loaded ctx.token_to_remove
  loaded ctx.whitelisted_token
  check_access_controller rt ctx.access_controller
  check_role_account rt ctx.access_controller (as_str admin) ctx.role
  check_member rt ctx.role ctx.admin ctx.member
  check_token_validator rt ctx.access_controller ctx.token_validator
  check_mint ctx.token_to_remove
  check_whitelisted_token rt ctx.token_validator ctx.token_to_remove ctx.whitelisted_token

-- The handler only logs; the account is closed at the end.
unfoldable pub remove_token_from_whitelist :
    Runtime → RemoveTokenFromWhitelist → Result RemoveTokenFromWhitelist
remove_token_from_whitelist rt ctx = do
  try_accounts rt ctx
  ok (record ctx { whitelisted_token = close ctx.whitelisted_token })
