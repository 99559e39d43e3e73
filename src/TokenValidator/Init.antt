-- ===== src/TokenValidator/Init.antt =====
-- init_token_validator.rs: a member of the admin role opens the whitelist.
use ithaca_smart_contract_an.Base.{ℕ, [], ◌∷◌, str_eq}
use ithaca_smart_contract_an.Program.Errors.{
  Result, ok, ◌>>=◌, ◌>>◌, require, access_control, AccessControlError,
}
use ithaca_smart_contract_an.Program.Roles.{admin, as_str}
use ithaca_smart_contract_an.Program.State.{
  Pubkey, AccessController, Role, Member, TokenValidator, zero_token_validator,
}
use ithaca_smart_contract_an.Program.Space.{token_validator_space, token_validator_len}
use ithaca_smart_contract_an.Program.Runtime.{
  Runtime, Account, text, key, init, canonical_bump, set_inner, exit, loaded,
}
use ithaca_smart_contract_an.Program.Checks.{
  check_access_controller, check_role_account, check_member,
}

pub record InitTokenValidator : Type 0 where
  pub admin : Pubkey
  pub access_controller : Account AccessController
  pub role : Account Role
  pub member : Account Member
  pub token_validator : Account TokenValidator

module _ (rt : Runtime) where
  unfoldable pub try_accounts : InitTokenValidator → Result InitTokenValidator
  unfolding init as_str check_access_controller check_role_account check_member
  try_accounts ctx = do
    loaded ctx.access_controller
    loaded ctx.role
    loaded ctx.member
    account ←
        init rt (text "token_validator" ∷ key ctx.access_controller.address ∷ [])
          token_validator_space zero_token_validator ctx.token_validator
    check_access_controller rt ctx.access_controller
    check_role_account rt ctx.access_controller (as_str admin) ctx.role
    check_member rt ctx.role ctx.admin ctx.member
    ok (record ctx { token_validator = account })

  abbrev pub bump : InitTokenValidator → ℕ
  bump ctx = canonical_bump rt (text "token_validator" ∷ key ctx.access_controller.address ∷ [])

-- `InitTokenValidator::init_token_validator`
unfoldable pub handler : InitTokenValidator → ℕ → Result InitTokenValidator
unfolding as_str
handler self bump = do
  require (str_eq self.role.inner.role (as_str admin))
      (access_control AccessControlError.unauthorized_admin)
  ok (record self {
    token_validator =
        set_inner self.token_validator
          (record { access_controller = self.access_controller.address; bump = bump });
  })

unfoldable pub init_token_validator : Runtime → InitTokenValidator → Result InitTokenValidator
init_token_validator rt ctx = do
  self ← try_accounts rt ctx
  self' ← handler self (bump rt self)
  exit token_validator_len self'.token_validator
  ok self'
