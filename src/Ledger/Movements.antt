-- ===== src/Ledger/Movements.antt =====
-- `update_fund_movements` of lib.rs and update_fund_movements.rs: a utility account settles the
-- movements of funds between the clients of a ledger.
pub mod Counts
pub mod Both
pub mod OneAmount
pub mod Single
pub mod Clients
pub mod Rounds
pub mod Given
pub mod Aligned
pub mod Many
pub mod Totals
pub mod Covered
use ithaca_smart_contract_an.Base.{
  ℕ, zero, suc, ◌+◌, ℤ, is_zero, not, Bool, false, ◌&&◌, ◌||◌, List, [], ◌∷◌, ◌++◌, length, ◌==◌,
  if◌then◌else◌,
}
use ithaca_smart_contract_an.Program.Errors.{
  Result, ok, panic, ◌>>=◌, ◌>>◌, require, expect, ledger, LedgerError,
}
use ithaca_smart_contract_an.Program.Words.{neg_i64, mul_i64}
use ithaca_smart_contract_an.Program.Roles.{utility_account, as_str}
use ithaca_smart_contract_an.Program.State.{
  Pubkey, AccessController, Role, Member, TokenValidator, WhitelistedToken, Fundlock, Mint, Ledger,
  FundMovementParam, FundMovementParamOptimized,
}
use ithaca_smart_contract_an.Program.Runtime.{Runtime, Account, text, key, loaded, seeds_bump}
use ithaca_smart_contract_an.Program.Checks.{
  check_access_controller, check_role_account, check_member, check_token_validator, check_fundlock,
  check_mint, check_whitelisted_token,
}
use ithaca_smart_contract_an.Ledger.Settle.{
  AccountData, deserialize_client_balance, deserialize_withdrawals, MovementData, Transfer,
  update_balances_fundlock,
}

pub record UpdateFundMovements : Type 0 where
  pub caller : Pubkey
  pub access_controller : Account AccessController
  pub role : Account Role
  pub member : Account Member
  pub token_validator : Account TokenValidator
  pub fundlock : Account Fundlock
  pub underlying_token : Account Mint
  pub whitelisted_underlying_token : Account WhitelistedToken
  pub strike_token : Account Mint
  pub whitelisted_strike_token : Account WhitelistedToken
  pub ledger : Account Ledger

unfoldable pub try_accounts : Runtime → UpdateFundMovements → Result (Unit {0})
unfolding as_str check_access_controller check_role_account check_member check_token_validator
    check_fundlock check_mint check_whitelisted_token
try_accounts rt ctx = do
  loaded ctx.access_controller
  loaded ctx.role
  loaded ctx.member
  loaded ctx.token_validator
  loaded ctx.fundlock
  loaded ctx.underlying_token
  loaded ctx.whitelisted_underlying_token
  loaded ctx.strike_token
  loaded ctx.whitelisted_strike_token
  loaded ctx.ledger
  check_access_controller rt ctx.access_controller
  check_role_account rt ctx.access_controller (as_str utility_account) ctx.role
  check_member rt ctx.role ctx.caller ctx.member
  check_token_validator rt ctx.access_controller ctx.token_validator
  check_fundlock rt ctx.access_controller ctx.token_validator ctx.fundlock
  check_mint ctx.underlying_token
  check_whitelisted_token rt ctx.token_validator ctx.underlying_token
      ctx.whitelisted_underlying_token
  check_mint ctx.strike_token
  check_whitelisted_token rt ctx.token_validator ctx.strike_token ctx.whitelisted_strike_token
  loaded ctx.ledger
  seeds_bump rt
      (text "ledger"
        ∷ key ctx.access_controller.address
        ∷ key ctx.token_validator.address
        ∷ key ctx.underlying_token.address
        ∷ key ctx.strike_token.address
        ∷ [])
      ctx.ledger.inner.bump ctx.ledger.address

-- An account behind those that the context names.
pub record RemainingAccount : Type 0 where
  pub address : Pubkey
  pub contents : AccountData

abbrev pub contains : List Pubkey → Pubkey → Bool
contains [] k = false
contains (j ∷ js) k = k == j || contains js k

-- `try_borrow_mut_data().expect(…)`: the data of an account can be borrowed once.
abbrev pub borrow : List Pubkey → RemainingAccount → Result (List Pubkey)
borrow borrowed a = if contains borrowed a.address then panic else ok (a.address ∷ borrowed)

-- The first loop of lib.rs: four accounts for each movement, in this order.
unfoldable pub borrow_datas : List Pubkey → ℕ → List RemainingAccount → Result (List MovementData)
borrow_datas borrowed zero rest = ok []
borrow_datas borrowed (suc n) (ub ∷ sb ∷ uw ∷ sw ∷ rest) = do
  b1 ← borrow borrowed ub
  b2 ← borrow b1 sb
  b3 ← borrow b2 uw
  b4 ← borrow b3 sw
  ds ← borrow_datas b4 n rest
  ok (
      record {
        underlying_balance = ub.contents;
        strike_balance = sb.contents;
        underlying_withdrawals = uw.contents;
        strike_withdrawals = sw.contents;
      }
      ∷ ds)
borrow_datas borrowed (suc n) _ = panic

-- The second loop of lib.rs: the four accounts of a movement belong to one client.
unfoldable pub resolve_client : MovementData → FundMovementParamOptimized → Result FundMovementParam
resolve_client d m = do
  ub ← deserialize_client_balance d.underlying_balance
  sb ← deserialize_client_balance d.strike_balance
  uw ← deserialize_withdrawals d.underlying_withdrawals
  sw ← deserialize_withdrawals d.strike_withdrawals
  require (ub.client == sb.client && uw.client == sw.client && ub.client == sw.client)
      (ledger LedgerError.account_order_violated)
  ok (record {
    client = ub.client;
    underlying_amount = m.underlying_amount;
    strike_amount = m.strike_amount;
  })

unfoldable pub resolve_clients :
    List MovementData → List FundMovementParamOptimized → Result (List FundMovementParam)
resolve_clients (d ∷ ds) (m ∷ ms) = do
  p ← resolve_client d m
  ps ← resolve_clients ds ms
  ok (p ∷ ps)
resolve_clients _ _ = ok []

-- `validate_and_count_amounts`, with the count so far
unfoldable pub validate_and_count_amounts : ℕ → List FundMovementParam → Result ℕ
validate_and_count_amounts count [] = ok count
validate_and_count_amounts count (m ∷ ms) =
    require (not (is_zero m.underlying_amount) || not (is_zero m.strike_amount))
      (ledger LedgerError.empty_amounts_array)
    >> validate_and_count_amounts
        (count
          + (if is_zero m.underlying_amount then 0 else 1)
          + (if is_zero m.strike_amount then 0 else 1))
        ms

-- One entry of the lists that `initialize_data` fills, or none if the amount is zero.
unfoldable pub transfer_of : Pubkey → Pubkey → ℤ → ℤ → Result (List Transfer)
unfolding neg_i64 mul_i64
transfer_of client token amount multiplier =
    if is_zero amount
    then ok []
    else (neg_i64 amount >>= λ negated. mul_i64 negated multiplier >>= λ scaled.
        ok (record { client = client; token = token; amount = scaled } ∷ []))

unfoldable pub initialize_data : Ledger → List FundMovementParam → Result (List Transfer)
initialize_data l [] = ok []
initialize_data l (m ∷ ms) = do
  under ← transfer_of m.client l.underlying_token m.underlying_amount l.underlying_multiplier
  strike ← transfer_of m.client l.strike_token m.strike_amount l.strike_multiplier
  rest ← initialize_data l ms
  ok (under ++ strike ++ rest)

-- `process_fund_movement`: an error of the settlement is a panic.
unfoldable pub process_fund_movement :
    UpdateFundMovements
    → ℤ
    → List FundMovementParam
    → List MovementData
    → Result (List MovementData)
process_fund_movement self unix_timestamp fund_movements datas = do
  transfers ← initialize_data self.ledger.inner fund_movements
  expect (update_balances_fundlock self.fundlock.inner unix_timestamp transfers 0 datas)

-- `UpdateFundMovements::update_fund_movements`
unfoldable pub handler :
    UpdateFundMovements
    → ℤ
    → List FundMovementParam
    → List MovementData
    → Result (List MovementData)
handler self unix_timestamp fund_movements datas = do
  require (not (length fund_movements == 0)) (ledger LedgerError.empty_fund_movement_array)
  validate_and_count_amounts 0 fund_movements >>= λ count.
      process_fund_movement self unix_timestamp fund_movements datas

-- The instruction: the data of the accounts of each movement afterwards.
unfoldable pub update_fund_movements :
    Runtime
    → UpdateFundMovements
    → ℤ
    → List RemainingAccount
    → List FundMovementParamOptimized
    → Result (List MovementData)
update_fund_movements rt ctx unix_timestamp remaining_accounts fund_movements = do
  try_accounts rt ctx
  datas ← borrow_datas [] (length fund_movements) remaining_accounts
  resolved ← resolve_clients datas fund_movements
  handler ctx unix_timestamp resolved datas
