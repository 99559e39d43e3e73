-- ===== src/AccessControl/Renounce.antt =====
-- renounce_role.rs: the admin of the access controller takes a member out of a role.
use ithaca_smart_contract_an.Base.{not, String, ◌==◌}
use ithaca_smart_contract_an.Program.Errors.{
  Result, ok, ◌>>=◌, ◌>>◌, require, access_control, AccessControlError,
}
use ithaca_smart_contract_an.Program.Words.{sub_u64}
use ithaca_smart_contract_an.Program.State.{Pubkey, AccessController, Role, Member}
use ithaca_smart_contract_an.Program.Space.{role_len}
use ithaca_smart_contract_an.Program.Runtime.{Runtime, Account, set_inner, close, exit, loaded}
use ithaca_smart_contract_an.Program.Checks.{
  check_access_controller, check_role_account, check_member,
}

pub record RenounceRole : Type 0 where
  pub admin : Pubkey
  pub access_controller : Account AccessController
  pub role : Account Role
  pub member : Account Member

unfoldable pub try_accounts : Runtime → RenounceRole → String → Pubkey → Result (Unit {0})
unfolding check_access_controller check_role_account check_member
try_accounts rt ctx role_renounced member_pk = do
  loaded ctx.access_controller
  loaded ctx.role
  loaded ctx.member
  require (ctx.admin == ctx.access_controller.inner.admin)
      (access_control AccessControlError.unauthorized_admin)
  check_access_controller rt ctx.access_controller
  check_role_account rt ctx.access_controller role_renounced ctx.role
  check_member rt ctx.role member_pk ctx.member

-- `RenounceRole::renounce_role`
unfoldable pub handler : RenounceRole → Result RenounceRole
unfolding sub_u64
handler self = do
  require (not (self.role.inner.member_count == 1)) (access_control AccessControlError.last_member)
  member_count ← sub_u64 self.role.inner.member_count 1
  ok (record self {
    role = set_inner self.role (record self.role.inner { member_count = member_count });
  })

-- The member's account is closed at the end.
unfoldable pub renounce_role : Runtime → RenounceRole → String → Pubkey → Result RenounceRole
renounce_role rt ctx role_renounced member_pk = do
  try_accounts rt ctx role_renounced member_pk
  self ← handler ctx
  exit (role_len self.role.inner) self.role
  ok (record self { member = close self.member })
