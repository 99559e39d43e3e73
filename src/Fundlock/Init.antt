-- ===== src/Fundlock/Init.antt =====
-- init_fundlock.rs: a member of the admin role sets the two locks.
pub mod Locks
use ithaca_smart_contract_an.Base.{ℕ, ℤ, pos, not, is_zero, ltb_ℤ, [], ◌∷◌}
use ithaca_smart_contract_an.Program.Errors.{
  Result, ok, ◌>>=◌, ◌>>◌, require, fundlock, FundlockError,
}
use ithaca_smart_contract_an.Program.Roles.{admin, as_str}
use ithaca_smart_contract_an.Program.State.{
  Pubkey, AccessController, Role, Member, TokenValidator, Fundlock, zero_fundlock,
}
use ithaca_smart_contract_an.Program.Space.{fundlock_space, fundlock_len}
use ithaca_smart_contract_an.Program.Runtime.{
  Runtime, Account, text, key, init, canonical_bump, set_inner, exit, loaded,
}
use ithaca_smart_contract_an.Program.Checks.{
  check_access_controller, check_role_account, check_member, check_token_validator,
}

pub record InitFundlock : Type 0 where
  pub caller : Pubkey
  pub access_controller : Account AccessController
  pub role : Account Role
  pub member : Account Member
  pub token_validator : Account TokenValidator
  pub fundlock : Account Fundlock

module _ (rt : Runtime) where
  unfoldable pub try_accounts : InitFundlock → Result InitFundlock
  unfolding init as_str check_access_controller check_role_account check_member
      check_token_validator
  try_accounts ctx = do
    loaded ctx.access_controller
    loaded ctx.role
    loaded ctx.member
    loaded ctx.token_validator
    account ←
        init rt
          (text "fundlock"
            ∷ key ctx.access_controller.address
            ∷ key ctx.token_validator.address
            ∷ [])
          fundlock_space zero_fundlock ctx.fundlock
    check_access_controller rt ctx.access_controller
    check_role_account rt ctx.access_controller (as_str admin) ctx.role
    check_member rt ctx.role ctx.caller ctx.member
    check_token_validator rt ctx.access_controller ctx.token_validator
    ok (record ctx { fundlock = account })

  abbrev pub bump : InitFundlock → ℕ
  bump ctx =
      canonical_bump rt
        (text "fundlock" ∷ key ctx.access_controller.address ∷ key ctx.token_validator.address ∷ [])

-- `InitFundlock::init_fundlock`; the release lock stays below a week.
unfoldable pub handler : InitFundlock → ℤ → ℤ → ℕ → Result InitFundlock
handler self trade_lock release_lock bump = do
  require (not (is_zero trade_lock)) (fundlock FundlockError.invalid_trade_lock)
  require (ltb_ℤ release_lock (pos 604800)) (fundlock FundlockError.release_lock_too_long)
  ok (record self {
    fundlock = set_inner self.fundlock (record {
      access_controller = self.access_controller.address;
      token_validator = self.token_validator.address;
      trade_lock = trade_lock;
      release_lock = release_lock;
      bump = bump;
    });
  })

unfoldable pub init_fundlock : Runtime → InitFundlock → ℤ → ℤ → Result InitFundlock
init_fundlock rt ctx trade_lock release_lock = do
  self ← try_accounts rt ctx
  self' ← handler self trade_lock release_lock (bump rt self)
  exit fundlock_len self'.fundlock
  ok self'
