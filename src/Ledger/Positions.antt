-- ===== src/Ledger/Positions.antt =====
-- `create_contracts_and_positions` of lib.rs: a utility account writes the contracts of a ledger
-- and the positions of clients on them, in accounts that are created where they are missing.
pub mod Writes
pub mod Book
pub mod Totality
use ithaca_smart_contract_an.Base.{
  ℕ, suc, ◌+◌, ◌*◌, Bool, List, [], ◌∷◌, get_elem?, leb, ◌==◌, if◌then◌else◌,
}
use ithaca_smart_contract_an.Program.Errors.{
  Result, ok, err, panic, ◌>>=◌, ◌>>◌, require, or_panic, ledger, LedgerError, called_program,
}
use ithaca_smart_contract_an.Program.Roles.{utility_account, as_str}
use ithaca_smart_contract_an.Program.State.{
  Pubkey, AccessController, Role, Member, TokenValidator, WhitelistedToken, Mint, Ledger, Contract,
  Position, PositionsParam,
}
use ithaca_smart_contract_an.Program.Space.{contract_space, position_space}
use ithaca_smart_contract_an.Program.Runtime.{
  Runtime, Account, Seed, text, key, u64_le, loaded, seeds_bump,
}
use ithaca_smart_contract_an.Program.Checks.{
  check_access_controller, check_role_account, check_member, check_token_validator, check_mint,
  check_whitelisted_token,
}

pub record CreateOrUpdatePositions : Type 0 where
  pub caller : Pubkey
  pub access_controller : Account AccessController
  pub role_util : Account Role
  pub member_util : Account Member
  pub token_validator : Account TokenValidator
  pub underlying_token : Account Mint
  pub whitelisted_underlying_token : Account WhitelistedToken
  pub strike_token : Account Mint
  pub whitelisted_strike_token : Account WhitelistedToken
  pub ledger : Account Ledger

unfoldable pub try_accounts : Runtime → CreateOrUpdatePositions → Result (Unit {0})
unfolding as_str check_access_controller check_role_account check_member check_token_validator
    check_mint check_whitelisted_token
try_accounts rt ctx = do
  loaded ctx.access_controller
  loaded ctx.role_util
  loaded ctx.member_util
  loaded ctx.token_validator
  loaded ctx.underlying_token
  loaded ctx.whitelisted_underlying_token
  loaded ctx.strike_token
  loaded ctx.whitelisted_strike_token
  loaded ctx.ledger
  check_access_controller rt ctx.access_controller
  check_role_account rt ctx.access_controller (as_str utility_account) ctx.role_util
  check_member rt ctx.role_util ctx.caller ctx.member_util
  check_token_validator rt ctx.access_controller ctx.token_validator
  check_mint ctx.underlying_token
  check_whitelisted_token rt ctx.token_validator ctx.underlying_token
      ctx.whitelisted_underlying_token
  check_mint ctx.strike_token
  check_whitelisted_token rt ctx.token_validator ctx.strike_token ctx.whitelisted_strike_token
  loaded ctx.ledger
  seeds_bump rt
      (text "ledger"
        ∷ key ctx.access_controller.address
        ∷ key ctx.token_validator.address
        ∷ key ctx.underlying_token.address
        ∷ key ctx.strike_token.address
        ∷ [])
      ctx.ledger.inner.bump ctx.ledger.address

-- The data of an account: nothing, zeros, a contract, a position, or other bytes.
pub data Contents : Type 0 where
  zeros : Contents
  contract : Contract → Contents
  position : Position → Contents
  other : Contents

pub record Slot : Type 0 where
  pub space : ℕ
  pub contents : Contents

-- The accounts by their addresses. One that was never created has no space.
abbrev pub Store : Type 0
Store = Pubkey → Slot

abbrev pub update : Store → Pubkey → Slot → Store
update store k slot j = if k == j then slot else store j

-- The bytes that `final_data` takes, the discriminator included.
abbrev pub contract_len : ℕ
contract_len = 8 + (8 + 1)

abbrev pub position_len : ℕ
position_len = 8 + (8 + 32 + 8 + 1)

-- The system program's `create_account`, as a parameter: does it create an account at this address
-- with that space, paid by the caller, on these accounts?
abbrev pub CreateAccount : Type 0
CreateAccount = Pubkey → Pubkey → ℕ → Store → Bool

-- `if account.data_is_empty() { … create_account … }`
unfoldable pub create_if_empty : CreateAccount → Pubkey → Pubkey → ℕ → Store → Result Store
create_if_empty create_account caller k init_space store =
    if (store k).space == 0
    then (if create_account caller k init_space store
        then ok (update store k (record { space = init_space; contents = zeros }))
        else err called_program)
    else ok store

-- `data[0..final_data.len()].copy_from_slice(&final_data)`, which panics on a shorter account
unfoldable pub write_data : Pubkey → ℕ → Contents → Store → Result Store
write_data k final_len contents store =
    if leb final_len (store k).space
    then ok (update store k (record (store k) { contents = contents }))
    else panic

-- The contract's data is still borrowed when the position's is: the same account cannot be both.
abbrev pub borrow_other : Pubkey → Pubkey → Result (Unit {0})
borrow_other contract_key position_key = if contract_key == position_key then panic else ok tt

abbrev pub contract_seeds : Pubkey → PositionsParam → List Seed
contract_seeds ledger_key p = text "contract" ∷ key ledger_key ∷ u64_le p.contract_id ∷ []

abbrev pub position_seeds : Pubkey → PositionsParam → List Seed
position_seeds contract_key p = text "position" ∷ key contract_key ∷ key p.client ∷ []

module _ (rt : Runtime) (create_account : CreateAccount) (ctx : CreateOrUpdatePositions)
    (remaining_accounts : List Pubkey) where
  -- The body of the loop, for the parameter at index `i`.
  unfoldable pub create_or_update : ℕ → PositionsParam → Store → Result Store
  create_or_update i p store = do
    contract_key ← or_panic (get_elem? remaining_accounts (i * 2))
    position_key ← or_panic (get_elem? remaining_accounts (i * 2 + 1))
    let expected_contract = rt.find_program_address (contract_seeds ctx.ledger.address p)
    let expected_position = rt.find_program_address (position_seeds contract_key p)
    require (contract_key == expected_contract.0) (ledger LedgerError.account_order_violated)
    require (position_key == expected_position.0) (ledger LedgerError.account_order_violated)
    s1 ← create_if_empty create_account ctx.caller contract_key contract_space store
    s2 ←
        write_data contract_key contract_len
          (contract (record { contract_id = p.contract_id; bump = expected_contract.1 })) s1
    borrow_other contract_key position_key
    s3 ← create_if_empty create_account ctx.caller position_key position_space s2
    write_data position_key position_len
        (position (record {
          contract_id = p.contract_id;
          client = p.client;
          size = p.size;
          bump = expected_position.1;
        }))
        s3

  -- The loop, from index `i` on.
  unfoldable pub create_or_update_all : ℕ → List PositionsParam → Store → Result Store
  create_or_update_all i [] store = ok store
  create_or_update_all i (p ∷ ps) store =
      create_or_update i p store >>= λ store'. create_or_update_all (suc i) ps store'

  unfoldable pub create_contracts_and_positions : List PositionsParam → Store → Result Store
  create_contracts_and_positions position_params store = do
    try_accounts rt ctx
    create_or_update_all 0 position_params store
