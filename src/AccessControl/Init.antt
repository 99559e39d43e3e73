-- ===== src/AccessControl/Init.antt =====
-- init_access_controller.rs: the signer becomes the admin and the first member of the admin role.
use ithaca_smart_contract_an.Base.{ℕ, [], ◌∷◌}
use ithaca_smart_contract_an.Program.Errors.{Result, ok, ◌>>=◌, ◌>>◌}
use ithaca_smart_contract_an.Program.Roles.{admin, as_str}
use ithaca_smart_contract_an.Program.State.{
  Pubkey, AccessController, Role, Member, zero_access_controller, zero_role, zero_member,
}
use ithaca_smart_contract_an.Program.Space.{
  access_controller_space, access_controller_len, role_len, member_len,
}
use ithaca_smart_contract_an.Program.Runtime.{
  Runtime, Account, text, key, init, canonical_bump, set_inner, exit,
}

pub record InitAccessController : Type 0 where
  pub admin : Pubkey
  pub access_controller : Account AccessController
  pub role : Account Role
  pub member : Account Member

pub record InitAccessControllerBumps : Type 0 where
  pub access_controller : ℕ
  pub role : ℕ
  pub member : ℕ

module _ (rt : Runtime) where
  -- All three accounts are allocated with the space of an access controller.
  unfoldable pub try_accounts : InitAccessController → Result InitAccessController
  unfolding init as_str
  try_accounts ctx = do
    access_controller ←
        init rt (text "access_controller" ∷ key ctx.admin ∷ []) access_controller_space
          zero_access_controller ctx.access_controller
    role ←
        init rt (text "role" ∷ key access_controller.address ∷ text (as_str admin) ∷ [])
          access_controller_space zero_role ctx.role
    member ←
        init rt (text "member" ∷ key role.address ∷ key ctx.admin ∷ []) access_controller_space
          zero_member ctx.member
    ok (record ctx { access_controller = access_controller; role = role; member = member })

  unfoldable pub bumps : InitAccessController → InitAccessControllerBumps
  unfolding as_str
  bumps ctx = record {
    access_controller = canonical_bump rt (text "access_controller" ∷ key ctx.admin ∷ []);
    role =
        canonical_bump rt
          (text "role" ∷ key ctx.access_controller.address ∷ text (as_str admin) ∷ []);
    member = canonical_bump rt (text "member" ∷ key ctx.role.address ∷ key ctx.admin ∷ []);
  }

unfoldable pub initialize :
    InitAccessController → InitAccessControllerBumps → Result InitAccessController
unfolding as_str
initialize self bumps = ok (record self {
  access_controller =
      set_inner self.access_controller
        (record { admin = self.admin; bump = bumps.access_controller });
  role = set_inner self.role (record { role = as_str admin; member_count = 1; bump = bumps.role });
  member = set_inner self.member (record { member = self.admin; bump = bumps.member });
})

-- The instruction: the accounts are checked, the handler runs, and they are written back.
unfoldable pub init_access_controller : Runtime → InitAccessController → Result InitAccessController
init_access_controller rt ctx = do
  self ← try_accounts rt ctx
  self' ← initialize self (bumps rt self)
  exit access_controller_len self'.access_controller
  exit (role_len self'.role.inner) self'.role
  exit member_len self'.member
  ok self'
