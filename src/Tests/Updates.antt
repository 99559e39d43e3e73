-- ===== src/Tests/Updates.antt =====
-- An update of fund movements of two clients, one of whom pays what the other receives.
use ithaca_smart_contract_an.Base.{
  zero, suc, ◌≡◌, List, [], ◌∷◌, refl, arith, pos, negsuc, ◌+ℤ◌, ◌-ℤ◌, ◌*ℤ◌, inr,
}
use ithaca_smart_contract_an.Program.Errors.{ok}
use ithaca_smart_contract_an.Program.Roles.{as_str}
use ithaca_smart_contract_an.Program.Words.{
  add_i64, checked_i64, neg_i64, abs_i64, as_i64, as_u64, mul_i64,
}
use ithaca_smart_contract_an.Program.State.{FundMovementParam, FundMovementParamOptimized, Ledger}
use ithaca_smart_contract_an.Program.Checks.{
  check_access_controller, check_role_account, check_member, check_token_validator, check_fundlock,
  check_mint, check_whitelisted_token,
}
use ithaca_smart_contract_an.Ledger.Settle.{
  client_balance, withdrawals, change_in_balance, settle, settle_underlying, settle_strike,
  update_balances_fundlock,
}
use ithaca_smart_contract_an.Ledger.Movements
use ithaca_smart_contract_an.Ledger.Movements.{
  RemainingAccount, validate_and_count_amounts, transfer_of, initialize_data, process_fund_movement,
  borrow_datas, resolve_client, resolve_clients, update_fund_movements,
}
use ithaca_smart_contract_an.Ledger.Movements.Clients.{
  Client, datas, underlying, IsSound, all_transfers,
}
use ithaca_smart_contract_an.Ledger.Movements.Aligned.{IsAligned}
use ithaca_smart_contract_an.Ledger.Movements.Many.{AllMoved, handler-AllMoved}
use ithaca_smart_contract_an.Ledger.Movements.Totals.{claims_of, handler-conserves}
use ithaca_smart_contract_an.Ledger.Movements.Covered.{IsPayable, all_paid, handler-covered}
use ithaca_smart_contract_an.Tests.Concrete.{rt}
use ithaca_smart_contract_an.Tests.Movements.{
  updating, balance, no_withdrawals, no_withdrawals-IsQueue,
}

abbrev pub payer : Client
payer = record {
  balance_u = balance;
  balance_s = balance;
  withdrawals_u = no_withdrawals;
  withdrawals_s = no_withdrawals;
}

abbrev pub receiver : Client
receiver = record {
  balance_u = record balance { client = 60; client_ata = 61 };
  balance_s = record balance { client = 60; client_ata = 61 };
  withdrawals_u = record no_withdrawals { client = 60 };
  withdrawals_s = record no_withdrawals { client = 60 };
}

abbrev pub both : List Client
both = payer ∷ receiver ∷ []

abbrev first : FundMovementParam
first = record { client = 40; underlying_amount = pos 3; strike_amount = negsuc 1 }

abbrev second : FundMovementParam
second = record { client = 60; underlying_amount = negsuc 2; strike_amount = pos 2 }

abbrev pub movements : List FundMovementParam
movements = first ∷ second ∷ []

abbrev ledger : Ledger
ledger = updating.ledger.inner

abbrev pub after : List Client
after = all_paid ledger movements both

settled_ok : Movements.handler updating (pos 1050) movements (datas both) ≡ ok (datas after)
unfolding Movements.handler process_fund_movement initialize_data transfer_of
    validate_and_count_amounts update_balances_fundlock settle_underlying settle_strike settle
    change_in_balance neg_i64 mul_i64 checked_i64 add_i64 abs_i64 as_i64 as_u64 ◌+ℤ◌ ◌-ℤ◌ ◌*ℤ◌
settled_ok = refl

payer-IsSound : IsSound underlying payer
payer-IsSound = record { fits = omega arith; queue = no_withdrawals-IsQueue }

receiver-IsSound : IsSound underlying receiver
receiver-IsSound = record { fits = omega arith; queue = no_withdrawals-IsQueue }

pub movements-IsAligned : IsAligned (all_transfers ledger movements)
unfolding ◌-ℤ◌ ◌*ℤ◌
movements-IsAligned zero x y ex ey = ground (arith, ex, ey)
movements-IsAligned (suc zero) x y ex ey = ground (arith, ex, ey)
movements-IsAligned (suc (suc i)) x y ex ey = ground (arith, ey)

handler-AllMoved_example :
    (cs' : List Client) × (datas after ≡ datas cs') × AllMoved underlying ledger movements both cs'
handler-AllMoved_example =
    handler-AllMoved underlying updating (pos 1050) movements both (datas after) settled_ok refl
      (payer-IsSound, (receiver-IsSound, tt)) movements-IsAligned

handler-conserves_example :
    (cs' : List Client) × (datas after ≡ datas cs')
    × (claims_of underlying cs' ≡ claims_of underlying both)
unfolding ◌-ℤ◌ ◌*ℤ◌ ◌+ℤ◌
handler-conserves_example =
    handler-conserves underlying updating (pos 1050) movements both (datas after) settled_ok refl
      (payer-IsSound, (receiver-IsSound, tt)) movements-IsAligned refl

first-IsPayable : IsPayable ledger first payer
unfolding ◌-ℤ◌ ◌*ℤ◌
first-IsPayable = record {
  both = (refl, refl);
  amount_u = omega arith;
  amount_s = omega arith;
  covered_u = record {
    token = refl;
    client = refl;
    owner = refl;
    balance_fits = omega arith;
    change_fits = omega arith;
    enough = inr (omega arith);
    result_fits = omega arith;
  };
  covered_s = record {
    token = refl;
    client = refl;
    owner = refl;
    balance_fits = omega arith;
    change_fits = omega arith;
    enough = inr (omega arith);
    result_fits = omega arith;
  };
}

second-IsPayable : IsPayable ledger second receiver
unfolding ◌-ℤ◌ ◌*ℤ◌
second-IsPayable = record {
  both = (refl, refl);
  amount_u = omega arith;
  amount_s = omega arith;
  covered_u = record {
    token = refl;
    client = refl;
    owner = refl;
    balance_fits = omega arith;
    change_fits = omega arith;
    enough = inr (omega arith);
    result_fits = omega arith;
  };
  covered_s = record {
    token = refl;
    client = refl;
    owner = refl;
    balance_fits = omega arith;
    change_fits = omega arith;
    enough = inr (omega arith);
    result_fits = omega arith;
  };
}

handler-covered_example :
    Movements.handler updating (pos 1050) movements (datas both) ≡ ok (datas after)
handler-covered_example =
    handler-covered updating (pos 1050) first (second ∷ []) both
      (first-IsPayable, (second-IsPayable, tt)) movements-IsAligned

-- The same update by its parameters, on the accounts of both clients in order.
abbrev pub params : List FundMovementParamOptimized
params =
    record { underlying_amount = pos 3; strike_amount = negsuc 1 }
    ∷ record { underlying_amount = negsuc 2; strike_amount = pos 2 }
    ∷ []

abbrev pub remaining : List RemainingAccount
remaining =
    record { address = 71; contents = client_balance payer.balance_u }
    ∷ record { address = 72; contents = client_balance payer.balance_s }
    ∷ record { address = 73; contents = withdrawals payer.withdrawals_u }
    ∷ record { address = 74; contents = withdrawals payer.withdrawals_s }
    ∷ record { address = 75; contents = client_balance receiver.balance_u }
    ∷ record { address = 76; contents = client_balance receiver.balance_s }
    ∷ record { address = 77; contents = withdrawals receiver.withdrawals_u }
    ∷ record { address = 78; contents = withdrawals receiver.withdrawals_s }
    ∷ []

pub borrowed_ok : borrow_datas [] 2 remaining ≡ ok (datas both)
unfolding borrow_datas
borrowed_ok = refl

pub resolved_ok : resolve_clients (datas both) params ≡ ok movements
unfolding resolve_clients resolve_client
resolved_ok = refl

pub update_ok : update_fund_movements rt updating (pos 1050) remaining params ≡ ok (datas after)
unfolding update_fund_movements Movements.try_accounts Movements.handler process_fund_movement
    initialize_data transfer_of validate_and_count_amounts borrow_datas resolve_client
    resolve_clients update_balances_fundlock settle_underlying settle_strike settle
    change_in_balance as_str check_access_controller check_role_account check_member
    check_token_validator check_fundlock check_mint check_whitelisted_token neg_i64 mul_i64
    checked_i64 add_i64 abs_i64 as_i64 as_u64 ◌+ℤ◌ ◌-ℤ◌ ◌*ℤ◌
update_ok = refl
