-- ===== src/AccessControl/Grant.antt =====
-- grant_role.rs: the admin of the access controller makes an account a member of a role.
use ithaca_smart_contract_an.Base.{ℕ, [], ◌∷◌, String, ◌==◌}
use ithaca_smart_contract_an.Program.Errors.{
  Result, ok, ◌>>=◌, ◌>>◌, require, access_control, AccessControlError,
}
use ithaca_smart_contract_an.Program.Words.{add_u64}
use ithaca_smart_contract_an.Program.Roles.{is_valid_role}
use ithaca_smart_contract_an.Program.State.{
  Pubkey, AccessController, Role, Member, zero_role, zero_member,
}
use ithaca_smart_contract_an.Program.Space.{role_space, member_space, role_len, member_len}
use ithaca_smart_contract_an.Program.Runtime.{
  Runtime, Account, text, key, init, init_if_needed, canonical_bump, set_inner, exit, loaded,
}
use ithaca_smart_contract_an.Program.Checks.{check_access_controller}

pub record GrantRole : Type 0 where
  pub admin : Pubkey
  pub access_controller : Account AccessController
  pub role : Account Role
  pub member : Account Member

pub record GrantRoleBumps : Type 0 where
  pub role : ℕ
  pub member : ℕ

module _ (rt : Runtime) where
  unfoldable pub try_accounts : GrantRole → String → Pubkey → Result GrantRole
  unfolding check_access_controller init init_if_needed
  try_accounts ctx role_granted new_member = do
    loaded ctx.access_controller
    role ←
        init_if_needed rt (text "role" ∷ key ctx.access_controller.address ∷ text role_granted ∷ [])
          role_space zero_role ctx.role
    member ←
        init rt (text "member" ∷ key role.address ∷ key new_member ∷ []) member_space zero_member
          ctx.member
    require (ctx.admin == ctx.access_controller.inner.admin)
        (access_control AccessControlError.unauthorized_admin)
    check_access_controller rt ctx.access_controller
    ok (record ctx { role = role; member = member })

  unfoldable pub bumps : GrantRole → String → Pubkey → GrantRoleBumps
  bumps ctx role_granted new_member = record {
    role =
        canonical_bump rt
          (text "role" ∷ key ctx.access_controller.address ∷ text role_granted ∷ []);
    member = canonical_bump rt (text "member" ∷ key ctx.role.address ∷ key new_member ∷ []);
  }

-- `GrantRole::grant_role`
unfoldable pub handler : GrantRole → String → Pubkey → GrantRoleBumps → Result GrantRole
unfolding is_valid_role add_u64
handler self role_granted new_member bumps = do
  require (self.access_controller.inner.admin == self.admin)
      (access_control AccessControlError.unauthorized_admin)
  require (is_valid_role role_granted) (access_control AccessControlError.invalid_role)
  member_count ← add_u64 self.role.inner.member_count 1
  ok (record self {
    role =
        set_inner self.role
          (record { role = role_granted; member_count = member_count; bump = bumps.role });
    member = set_inner self.member (record { member = new_member; bump = bumps.member });
  })

unfoldable pub grant_role : Runtime → GrantRole → String → Pubkey → Result GrantRole
grant_role rt ctx role_granted new_member = do
  self ← try_accounts rt ctx role_granted new_member
  self' ← handler self role_granted new_member (bumps rt self role_granted new_member)
  exit (role_len self'.role.inner) self'.role
  exit member_len self'.member
  ok self'
