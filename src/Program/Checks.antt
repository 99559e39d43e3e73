-- ===== src/Program/Checks.antt =====
-- The account attributes that the contexts of several instructions repeat: the address of each
-- account of the program is derived from that of the account above it.
use ithaca_smart_contract_an.Base.{◌≡◌, true, [], ◌∷◌, String, ltb, arith}
use ithaca_smart_contract_an.Program.Errors.{
  Result, ok, ◌>>◌, require, token_validator, TokenValidatorError,
}
use ithaca_smart_contract_an.Program.State.{
  Pubkey, AccessController, Role, Member, TokenValidator, WhitelistedToken, Fundlock, Mint,
}
use ithaca_smart_contract_an.Program.Runtime.{Runtime, Account, text, key, loaded, seeds_bump}

-- constraint = token.decimals > 0 @ TokenValidatorError::NonFungibleToken
unfoldable pub check_mint : Account Mint → Result (Unit {0})
check_mint token = do
  loaded token
  require (ltb 0 token.inner.decimals) (token_validator TokenValidatorError.non_fungible_token)

module _ (rt : Runtime) where
  -- seeds = [b"access_controller", access_controller.admin], bump = access_controller.bump
  unfoldable pub check_access_controller : Account AccessController → Result (Unit {0})
  check_access_controller ac = do
    loaded ac
    seeds_bump rt (text "access_controller" ∷ key ac.inner.admin ∷ []) ac.inner.bump ac.address

  -- seeds = [b"role", access_controller.key(), name], bump = role.bump
  unfoldable pub check_role_account :
      Account AccessController → String → Account Role → Result (Unit {0})
  check_role_account ac name role = do
    loaded role
    seeds_bump rt (text "role" ∷ key ac.address ∷ text name ∷ []) role.inner.bump role.address

  -- seeds = [b"member", role.key(), who.key()], bump = member.bump
  unfoldable pub check_member : Account Role → Pubkey → Account Member → Result (Unit {0})
  check_member role who member = do
    loaded member
    seeds_bump rt (text "member" ∷ key role.address ∷ key who ∷ []) member.inner.bump member.address

  -- seeds = [b"token_validator", access_controller.key()], bump = token_validator.bump
  unfoldable pub check_token_validator :
      Account AccessController → Account TokenValidator → Result (Unit {0})
  check_token_validator ac tv = do
    loaded tv
    seeds_bump rt (text "token_validator" ∷ key ac.address ∷ []) tv.inner.bump tv.address

  -- seeds = [b"fundlock", access_controller.key(), token_validator.key()], bump = fundlock.bump
  unfoldable pub check_fundlock :
      Account AccessController → Account TokenValidator → Account Fundlock → Result (Unit {0})
  check_fundlock ac tv f = do
    loaded f
    seeds_bump rt (text "fundlock" ∷ key ac.address ∷ key tv.address ∷ []) f.inner.bump f.address

  -- seeds = [b"whitelisted_token", token_validator.key(), token.key()], bump =
  -- whitelisted_token.bump
  unfoldable pub check_whitelisted_token :
      Account TokenValidator → Account Mint → Account WhitelistedToken → Result (Unit {0})
  check_whitelisted_token tv token w = do
    loaded w
    seeds_bump rt (text "whitelisted_token" ∷ key tv.address ∷ key token.address ∷ []) w.inner.bump
        w.address

  -- An account that passes its check exists.
  pub check_access_controller-exists :
      (ac : Account AccessController) → check_access_controller ac ≡ ok tt → ac.exists ≡ true
  unfolding check_access_controller
  check_access_controller-exists ac h = ground arith

  pub check_role_account-exists :
      (ac : Account AccessController) (name : String) (role : Account Role)
      → check_role_account ac name role ≡ ok tt
      → role.exists ≡ true
  unfolding check_role_account
  check_role_account-exists ac name role h = ground arith

  pub check_member-exists :
      (role : Account Role) (who : Pubkey) (member : Account Member)
      → check_member role who member ≡ ok tt
      → member.exists ≡ true
  unfolding check_member
  check_member-exists role who member h = ground arith

  pub check_token_validator-exists :
      (ac : Account AccessController) (tv : Account TokenValidator)
      → check_token_validator ac tv ≡ ok tt
      → tv.exists ≡ true
  unfolding check_token_validator
  check_token_validator-exists ac tv h = ground arith

pub check_mint-exists : (token : Account Mint) → check_mint token ≡ ok tt → token.exists ≡ true
unfolding check_mint
check_mint-exists token h = ground arith
