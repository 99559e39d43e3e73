-- ===== src/Authority.antt =====
-- Who may run what: the instructions that ask for a member of a role, against `check_role`.
use ithaca_smart_contract_an.Base.{==_iff, ℕ, ◌≡◌, ℤ, String, List, arith, refl}
use ithaca_smart_contract_an.Program.Errors.{ok}
use ithaca_smart_contract_an.Program.Roles.{admin, utility_account, as_str}
use ithaca_smart_contract_an.Program.State.{
  Pubkey, AccessController, Role, Member, PositionsParam, FundMovementParamOptimized,
}
use ithaca_smart_contract_an.Program.Runtime.{Runtime, Account}
use ithaca_smart_contract_an.Program.Checks.{
  check_access_controller, check_role_account, check_member, check_access_controller-exists,
  check_role_account-exists, check_member-exists,
}
use ithaca_smart_contract_an.AccessControl.Check
use ithaca_smart_contract_an.AccessControl.Check.{CheckRole, check_role}
use ithaca_smart_contract_an.TokenValidator.Init
use ithaca_smart_contract_an.TokenValidator.Init.{InitTokenValidator, init_token_validator}
use ithaca_smart_contract_an.TokenValidator.Add
use ithaca_smart_contract_an.TokenValidator.Add.{AddTokenToWhitelist, add_token_to_whitelist}
use ithaca_smart_contract_an.TokenValidator.Remove
use ithaca_smart_contract_an.TokenValidator.Remove.{
  RemoveTokenFromWhitelist, remove_token_from_whitelist,
}
use ithaca_smart_contract_an.Fundlock.Init as FundlockInit
use ithaca_smart_contract_an.Fundlock.Init.{InitFundlock, init_fundlock}
use ithaca_smart_contract_an.Ledger.Init as LedgerInit
use ithaca_smart_contract_an.Ledger.Init.{InitLedger, init_ledger}
use ithaca_smart_contract_an.Ledger.Positions
use ithaca_smart_contract_an.Ledger.Positions.{
  CreateOrUpdatePositions, CreateAccount, Store, create_contracts_and_positions,
}
use ithaca_smart_contract_an.Ledger.Movements
use ithaca_smart_contract_an.Ledger.Movements.{
  UpdateFundMovements, RemainingAccount, update_fund_movements,
}
use ithaca_smart_contract_an.Ledger.Settle.{MovementData}

-- The signer of an instruction, the role that it asks for, and the accounts that it was given for
-- them.
pub record Claimed : Type 0 where
  pub signer : Pubkey
  pub name : String
  pub access_controller : Account AccessController
  pub role : Account Role
  pub member : Account Member

-- The same accounts and the system program, for `check_role`.
abbrev pub asked_of : Runtime → Claimed → Pubkey → CheckRole
asked_of rt x caller = record {
  caller = caller;
  access_controller = x.access_controller;
  role = x.role;
  member = x.member;
  system_program = rt.system_program_id;
}

abbrev pub claimed :
    Pubkey → String → Account AccessController → Account Role → Account Member → Claimed
claimed signer name access_controller role member = record {
  signer = signer;
  name = name;
  access_controller = access_controller;
  role = role;
  member = member;
}

module _ (rt : Runtime) where
  -- The instructions that ask for a member of the admin role or of the utility role, and succeed.
  pub data Ran : Claimed → Type 0 where
    opens_validator :
        (ctx ctx' : InitTokenValidator)
        → init_token_validator rt ctx ≡ ok ctx'
        → Ran (claimed ctx.admin (as_str admin) ctx.access_controller ctx.role ctx.member)
    lists :
        (ctx ctx' : AddTokenToWhitelist) (token_precision : ℕ)
        → add_token_to_whitelist rt ctx token_precision ≡ ok ctx'
        → Ran (claimed ctx.admin (as_str admin) ctx.access_controller ctx.role ctx.member)
    unlists :
        (ctx ctx' : RemoveTokenFromWhitelist)
        → remove_token_from_whitelist rt ctx ≡ ok ctx'
        → Ran (claimed ctx.admin (as_str admin) ctx.access_controller ctx.role ctx.member)
    opens_fundlock :
        (ctx ctx' : InitFundlock) (trade_lock release_lock : ℤ)
        → init_fundlock rt ctx trade_lock release_lock ≡ ok ctx'
        → Ran (claimed ctx.caller (as_str admin) ctx.access_controller ctx.role ctx.member)
    opens_ledger :
        (ctx ctx' : InitLedger)
        → init_ledger rt ctx ≡ ok ctx'
        → Ran (claimed ctx.admin (as_str admin) ctx.access_controller ctx.role ctx.member)
    writes_positions :
        (ca : CreateAccount) (ctx : CreateOrUpdatePositions) (remaining : List Pubkey)
        (ps : List PositionsParam) (store store' : Store)
        → create_contracts_and_positions rt ca ctx remaining ps store ≡ ok store'
        → Ran (
            claimed ctx.caller
              (as_str utility_account)
              ctx.access_controller
              ctx.role_util
              ctx.member_util)
    moves_funds :
        (ctx : UpdateFundMovements) (t : ℤ) (remaining : List RemainingAccount)
        (ps : List FundMovementParamOptimized) (r : List MovementData)
        → update_fund_movements rt ctx t remaining ps ≡ ok r
        → Ran
            (claimed ctx.caller (as_str utility_account) ctx.access_controller ctx.role ctx.member)

  -- The three checks that make the signer a member.
  record IsChecked (x : Claimed) : Type 0 where
    controller : check_access_controller rt x.access_controller ≡ ok tt
    role : check_role_account rt x.access_controller x.name x.role ≡ ok tt
    member : check_member rt x.role x.signer x.member ≡ ok tt

  Ran-IsChecked : {x : Claimed} → Ran x → IsChecked x
  unfolding init_token_validator Init.try_accounts add_token_to_whitelist Add.try_accounts
      remove_token_from_whitelist Remove.try_accounts init_fundlock FundlockInit.try_accounts
      init_ledger LedgerInit.try_accounts create_contracts_and_positions Positions.try_accounts
      update_fund_movements Movements.try_accounts
  Ran-IsChecked (opens_validator ctx ctx' h) = ground arith
  Ran-IsChecked (lists ctx ctx' p h) = ground arith
  Ran-IsChecked (unlists ctx ctx' h) = ground arith
  Ran-IsChecked (opens_fundlock ctx ctx' a b h) = ground arith
  Ran-IsChecked (opens_ledger ctx ctx' h) = ground arith
  Ran-IsChecked (writes_positions ca ctx remaining ps store store' h) = ground arith
  Ran-IsChecked (moves_funds ctx t remaining ps r h) = ground arith

  -- Nobody else: whoever signs an opening of the token validator, of the fundlock or of a ledger,
  -- or a change of the whitelist, that succeeds, is a member of the admin role by `check_role` on
  -- the accounts that were given, and whoever signs a writing of positions or an update of fund
  -- movements that succeeds, a member of the utility role, whoever asks `check_role`, in a context
  -- with the system program.
  pub Ran-check_role :
      {x : Claimed} (caller : Pubkey)
      → Ran x
      → check_role rt (asked_of rt x caller) x.name x.signer ≡ ok tt
  unfolding check_role Check.try_accounts Check.handler
  Ran-check_role {x} caller ran =
      let c = Ran-IsChecked ran in
      rw
        (
          c.controller,
          c.role,
          c.member,
          check_access_controller-exists rt x.access_controller c.controller,
          check_role_account-exists rt x.access_controller x.name x.role c.role,
          check_member-exists rt x.role x.signer x.member c.member,
          (==_iff rt.system_program_id rt.system_program_id).1 refl,
        )
        refl
