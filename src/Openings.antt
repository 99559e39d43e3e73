-- ===== src/Openings.antt =====
-- The accounts that the instructions open once: `init` in the accounts of init_access_controller,
-- init_token_validator, add_token_to_whitelist, init_fundlock and init_ledger.
use ithaca_smart_contract_an.Base.{ℕ, ◌≡◌, Bool, true, false, ℤ, arith}
use ithaca_smart_contract_an.Program.Errors.{ok}
use ithaca_smart_contract_an.Program.State.{Pubkey}
use ithaca_smart_contract_an.Program.Runtime.{Runtime, Account, init}
use ithaca_smart_contract_an.AccessControl.Init as ControllerInit
use ithaca_smart_contract_an.AccessControl.Init.{
  InitAccessController, initialize, init_access_controller,
}
use ithaca_smart_contract_an.TokenValidator.Init as ValidatorInit
use ithaca_smart_contract_an.TokenValidator.Init.{InitTokenValidator, init_token_validator}
use ithaca_smart_contract_an.TokenValidator.Add
use ithaca_smart_contract_an.TokenValidator.Add.{AddTokenToWhitelist, add_token_to_whitelist}
use ithaca_smart_contract_an.Fundlock.Init as FundlockInit
use ithaca_smart_contract_an.Fundlock.Init.{InitFundlock, init_fundlock}
use ithaca_smart_contract_an.Ledger.Init as LedgerInit
use ithaca_smart_contract_an.Ledger.Init.{InitLedger, init_ledger}

-- An account, whatever it holds: where it is, and whether it exists.
pub record Slot : Type 0 where
  pub address : Pubkey
  pub exists : Bool

abbrev pub slot {ℓ} : {T : Type ℓ} → Account T → Slot
slot a = record { address = a.address; exists = a.exists }

module _ (rt : Runtime) where
  -- An instruction that succeeds, and an account that it opens, before and after.
  pub data Opens : Slot → Slot → Type 0 where
    controller :
        (ctx ctx' : InitAccessController)
        → init_access_controller rt ctx ≡ ok ctx'
        → Opens (slot ctx.access_controller) (slot ctx'.access_controller)
    admin_role :
        (ctx ctx' : InitAccessController)
        → init_access_controller rt ctx ≡ ok ctx'
        → Opens (slot ctx.role) (slot ctx'.role)
    admin_member :
        (ctx ctx' : InitAccessController)
        → init_access_controller rt ctx ≡ ok ctx'
        → Opens (slot ctx.member) (slot ctx'.member)
    validator :
        (ctx ctx' : InitTokenValidator)
        → init_token_validator rt ctx ≡ ok ctx'
        → Opens (slot ctx.token_validator) (slot ctx'.token_validator)
    listing :
        (ctx ctx' : AddTokenToWhitelist) (token_precision : ℕ)
        → add_token_to_whitelist rt ctx token_precision ≡ ok ctx'
        → Opens (slot ctx.whitelisted_token) (slot ctx'.whitelisted_token)
    fundlock :
        (ctx ctx' : InitFundlock) (trade_lock release_lock : ℤ)
        → init_fundlock rt ctx trade_lock release_lock ≡ ok ctx'
        → Opens (slot ctx.fundlock) (slot ctx'.fundlock)
    ledger :
        (ctx ctx' : InitLedger)
        → init_ledger rt ctx ≡ ok ctx'
        → Opens (slot ctx.ledger) (slot ctx'.ledger)

  pub record IsOpened (x y : Slot) : Type 0 where
    pub missing : x.exists ≡ false
    pub made : y.exists ≡ true
    pub same : y.address ≡ x.address

  Opens-IsOpened : {x y : Slot} → Opens x y → IsOpened x y
  unfolding init initialize init_access_controller ControllerInit.try_accounts init_token_validator
      ValidatorInit.try_accounts ValidatorInit.handler add_token_to_whitelist Add.try_accounts
      Add.handler init_fundlock FundlockInit.try_accounts FundlockInit.handler init_ledger
      LedgerInit.try_accounts LedgerInit.handler
  Opens-IsOpened (controller ctx ctx' h) = ground arith
  Opens-IsOpened (admin_role ctx ctx' h) = ground arith
  Opens-IsOpened (admin_member ctx ctx' h) = ground arith
  Opens-IsOpened (validator ctx ctx' h) = ground arith
  Opens-IsOpened (listing ctx ctx' p h) = ground arith
  Opens-IsOpened (fundlock ctx ctx' a b h) = ground arith
  Opens-IsOpened (ledger ctx ctx' h) = ground arith

  -- Nothing is opened twice: an instruction that opens an access controller with its admin role and
  -- first member, the token validator, a listing, the fundlock or a ledger succeeds only where the
  -- account is missing, makes it exist at the same address, and no such instruction succeeds on the
  -- account that it leaves.
  pub Opens-once : {x y z : Slot} → Opens x y → IsOpened x y × (¬ Opens y z)
  Opens-once o = (Opens-IsOpened o, λ again. ground (arith, Opens-IsOpened o, Opens-IsOpened again))
