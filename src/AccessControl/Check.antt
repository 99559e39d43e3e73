-- ===== src/AccessControl/Check.antt =====
-- check_role.rs: does an account have a role?
use ithaca_smart_contract_an.Base.{Bool, not, String}
use ithaca_smart_contract_an.Program.Errors.{
  Result, ◌>>◌, require, access_control, AccessControlError,
}
use ithaca_smart_contract_an.Program.State.{Pubkey, AccessController, Role, Member}
use ithaca_smart_contract_an.Program.Runtime.{Runtime, Account, loaded, load_system_program}
use ithaca_smart_contract_an.Program.Checks.{
  check_access_controller, check_role_account, check_member,
}

pub record CheckRole : Type 0 where
  pub caller : Pubkey
  pub access_controller : Account AccessController
  pub role : Account Role
  pub member : Account Member
  pub system_program : Pubkey

unfoldable pub try_accounts : Runtime → CheckRole → String → Pubkey → Result (Unit {0})
unfolding check_access_controller check_role_account check_member
try_accounts rt ctx role_checked member_pk = do
  loaded ctx.access_controller
  loaded ctx.role
  loaded ctx.member
  load_system_program rt ctx.system_program
  check_access_controller rt ctx.access_controller
  check_role_account rt ctx.access_controller role_checked ctx.role
  check_member rt ctx.role member_pk ctx.member

-- `data_is_empty`: an account that does not exist has no data.
abbrev data_is_empty {ℓ} : {T : Type ℓ} → Account T → Bool
data_is_empty a = not a.exists

-- `CheckRole::check_role`
unfoldable pub handler : CheckRole → Result (Unit {0})
handler self = require (not (data_is_empty self.member)) (access_control AccessControlError.no_role)

unfoldable pub check_role : Runtime → CheckRole → String → Pubkey → Result (Unit {0})
check_role rt ctx role_checked member_pk = do
  try_accounts rt ctx role_checked member_pk
  handler ctx
