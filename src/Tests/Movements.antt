-- ===== src/Tests/Movements.antt =====
-- An update of fund movements: one client pays 3 of the underlying token and receives 2 of the
-- strike token.
use ithaca_smart_contract_an.Base.{inl, ℕ, ◌≡◌, List, [], ◌∷◌, refl, arith, pos, negsuc}
use ithaca_smart_contract_an.Program.Errors.{ok}
use ithaca_smart_contract_an.Program.State.{
  ClientBalance, Withdrawals, FundMovementParamOptimized, zero_ledger,
}
use ithaca_smart_contract_an.Program.Runtime.{text, key}
use ithaca_smart_contract_an.Ledger.Settle.{client_balance, withdrawals, MovementData}
use ithaca_smart_contract_an.Ledger.Movements.{
  UpdateFundMovements, RemainingAccount, validate_and_count_amounts, borrow_datas, resolve_client,
  resolve_clients, update_fund_movements,
}
use ithaca_smart_contract_an.Ledger.Movements.OneAmount.{update_fund_movements-HasOne}
use ithaca_smart_contract_an.Fundlock.Invariant.{IsQueue}
use ithaca_smart_contract_an.Program.State.{FundMovementParam}
use ithaca_smart_contract_an.Tests.Concrete
use ithaca_smart_contract_an.Tests.Concrete.{
  digest, rt, result, account, ac_address, tv_address, controller, validator, usdc,
  whitelisted_usdc,
}

abbrev role_address : ℕ
role_address = digest (text "role" ∷ key ac_address ∷ text "UTILITY_ACCOUNT_ROLE" ∷ [])

abbrev ledger_address : ℕ
ledger_address = digest (text "ledger" ∷ key ac_address ∷ key tv_address ∷ key 21 ∷ key 21 ∷ [])

abbrev pub updating : UpdateFundMovements
updating = record {
  caller = 50;
  access_controller = controller;
  role =
      account role_address 49
        (record { role = "UTILITY_ACCOUNT_ROLE"; member_count = 1; bump = 255 });
  member =
      account (digest (text "member" ∷ key role_address ∷ key 50 ∷ [])) 41
        (record { member = 50; bump = 255 });
  token_validator = validator;
  fundlock = Concrete.fundlock;
  underlying_token = usdc;
  whitelisted_underlying_token = whitelisted_usdc;
  strike_token = usdc;
  whitelisted_strike_token = whitelisted_usdc;
  ledger = account ledger_address 185 (record zero_ledger {
    underlying_token = 21;
    strike_token = 21;
    underlying_multiplier = pos 10;
    strike_multiplier = pos 1;
    bump = 255;
  });
}

abbrev pub balance : ClientBalance
balance = record {
  amount = 100;
  token = 21;
  client = 40;
  client_ata = 41;
  collateral_amount = 0;
  bump = 255;
}

abbrev pub no_withdrawals : Withdrawals
no_withdrawals = record {
  withdrawal_queue = [];
  active_withdrawals_amount = 0;
  client = 40;
  bump = 255;
}

abbrev remaining : List RemainingAccount
remaining =
    record { address = 71; contents = client_balance balance }
    ∷ record { address = 72; contents = client_balance balance }
    ∷ record { address = 73; contents = withdrawals no_withdrawals }
    ∷ record { address = 74; contents = withdrawals no_withdrawals }
    ∷ []

abbrev movements : List FundMovementParamOptimized
movements = record { underlying_amount = pos 3; strike_amount = negsuc 1 } ∷ []

-- A movement without an amount on the strike token.
abbrev one_amount : List FundMovementParamOptimized
one_amount = record { underlying_amount = pos 3; strike_amount = pos 0 } ∷ []

abbrev borrowed : List MovementData
borrowed =
    record {
      underlying_balance = client_balance balance;
      strike_balance = client_balance balance;
      underlying_withdrawals = withdrawals no_withdrawals;
      strike_withdrawals = withdrawals no_withdrawals;
    }
    ∷ []

abbrev resolved : List FundMovementParam
resolved = record { client = 40; underlying_amount = pos 3; strike_amount = pos 0 } ∷ []

borrowed_ok : borrow_datas [] 1 remaining ≡ ok borrowed
unfolding borrow_datas
borrowed_ok = refl

resolved_ok : resolve_clients borrowed one_amount ≡ ok resolved
unfolding resolve_clients resolve_client
resolved_ok = refl

update_fund_movements-HasOne_example :
    (validate_and_count_amounts 0 resolved ≡ ok 1)
    × (¬ (update_fund_movements rt updating (pos 1050) remaining one_amount ≡ ok borrowed))
update_fund_movements-HasOne_example =
    update_fund_movements-HasOne rt updating (pos 1050) remaining one_amount borrowed borrowed
      resolved borrowed_ok resolved_ok (inl refl, tt) (λ both. ground (arith, both.0))

abbrev pub single : FundMovementParam
single = record { client = 40; underlying_amount = pos 3; strike_amount = negsuc 1 }

pub no_withdrawals-IsQueue : IsQueue [] 0
no_withdrawals-IsQueue = record { total = refl; bounded = omega arith; positive = tt }
