-- ===== src/Tests/Settlement.antt =====
-- Settlements of transfers, and the funding of what a balance lacks from queued withdrawals.
use ithaca_smart_contract_an.Base.{
  ℕ, ◌+◌, ◌-◌, ◌≡◌, List, [], ◌∷◌, true, false, refl, arith, ℤ, pos, negsuc, ◌+ℤ◌, ◌-ℤ◌, ◌⊎◌, Bool,
}
use ithaca_smart_contract_an.Program.Errors.{◌>>=◌, ok}
use ithaca_smart_contract_an.Program.Words.{
  add_u64, sub_u64, add_i64, checked_i64, neg_i64, abs_i64, as_i64, as_u64, u64_mod,
}
use ithaca_smart_contract_an.Program.State.{
  ClientBalance, Withdrawals, WithdrawalState, Ledger, FundMovementParam, zero_ledger,
}
use ithaca_smart_contract_an.Fundlock.Invariant.{IsQueue}
use ithaca_smart_contract_an.Ledger.Funding.{
  fund_from_withdrawal, fund_loop, fund_round, take_withdrawal,
}
use ithaca_smart_contract_an.Ledger.Funding.Reference.{fund_entries}
use ithaca_smart_contract_an.Ledger.Funding.Pass.{written, fund_from_withdrawal-entries}
use ithaca_smart_contract_an.Ledger.Funding.Thinned.{IsThinned}
use ithaca_smart_contract_an.Ledger.Funding.Conservation.{fund_from_withdrawal-conserves}
use ithaca_smart_contract_an.Ledger.Funding.Totality.{fund_from_withdrawal-total}
use ithaca_smart_contract_an.Ledger.Funding.Skips.{fund_from_withdrawal-skips}
use ithaca_smart_contract_an.Ledger.Settle.{
  client_balance, withdrawals, Transfer, MovementData, change_in_balance, settle, settle_underlying,
}
use ithaca_smart_contract_an.Ledger.Settle.Misindexed.{
  settle_underlying-wraps, settle_underlying-debits,
}
use ithaca_smart_contract_an.Ledger.Movements.{initialize_data}
use ithaca_smart_contract_an.Tests.Concrete.{result, fundlock}

-- Two queued withdrawals of 30 and 20; the trade lock of both runs until 1100 and later.
abbrev entry : ℕ → WithdrawalState
entry n = record { amount = n; timestamp = pos 1000 }

abbrev waiting : Withdrawals
waiting = record {
  withdrawal_queue = entry 30 ∷ entry 20 ∷ [];
  active_withdrawals_amount = 50;
  client = 40;
  bump = 255;
}

abbrev balance : ℕ → ClientBalance
balance n = record {
  amount = n;
  token = 21;
  client = 40;
  client_ata = 41;
  collateral_amount = 0;
  bump = 255;
}

waiting-IsQueue : IsQueue waiting.withdrawal_queue waiting.active_withdrawals_amount
waiting-IsQueue = record {
  total = refl;
  bounded = omega arith;
  positive = (omega arith, (omega arith, tt));
}

abbrev funded : Bool × Withdrawals
funded = result (false, waiting) (fund_from_withdrawal (pos 100) (pos 1050) 10 waiting)

funded_ok : fund_from_withdrawal (pos 100) (pos 1050) 10 waiting ≡ ok (true, funded.1)
unfolding fund_from_withdrawal fund_loop fund_round take_withdrawal add_u64 sub_u64 add_i64
    checked_i64 ◌+ℤ◌
funded_ok = refl

fund_from_withdrawal-conserves_example :
    ((true ≡ true)
      × (funded.1.active_withdrawals_amount + 10 ≡ 50)
      × IsQueue funded.1.withdrawal_queue funded.1.active_withdrawals_amount
      × IsThinned waiting funded.1)
    ⊎ ((true ≡ false) × (funded.1 ≡ waiting))
fund_from_withdrawal-conserves_example =
    fund_from_withdrawal-conserves (pos 100) (pos 1050) 10 waiting funded.1 true funded_ok
      waiting-IsQueue

fund_from_withdrawal-total_example :
    (r : Bool × Withdrawals) × (fund_from_withdrawal (pos 100) (pos 1050) 10 waiting ≡ ok r)
unfolding ◌+ℤ◌
fund_from_withdrawal-total_example =
    fund_from_withdrawal-total (pos 100) (pos 1050) 10 waiting waiting-IsQueue
      ((omega arith, omega arith), ((omega arith, omega arith), tt)) (omega arith)

fund_from_withdrawal-skips_example :
    fund_from_withdrawal (pos 100) (pos 1050) 50 waiting ≡ ok (false, waiting)
unfolding ◌+ℤ◌
fund_from_withdrawal-skips_example =
    fund_from_withdrawal-skips (pos 100) (pos 1050) 50 waiting (entry 30) (entry 20) refl refl refl
      (omega arith) (omega arith) (omega arith, omega arith) (omega arith)

-- The transfers of two movements: the second one takes 9 from the client, whose balance is less.
abbrev transfer : ℤ → Transfer
transfer a = record { client = 40; token = 21; amount = a }

abbrev down : List Transfer
down = transfer (negsuc 14) ∷ transfer (pos 8) ∷ transfer (negsuc 8) ∷ transfer (pos 7) ∷ []

abbrev up : List Transfer
up = transfer (pos 15) ∷ transfer (negsuc 7) ∷ transfer (pos 9) ∷ transfer (negsuc 6) ∷ []

abbrev datas : MovementData
datas = record {
  underlying_balance = client_balance (balance 5);
  strike_balance = client_balance (balance 5);
  underlying_withdrawals = withdrawals waiting;
  strike_withdrawals = withdrawals waiting;
}

settle_underlying-wraps_example :
    settle_underlying fundlock.inner (pos 1050) down 1 datas
    ≡ ok (record datas { underlying_balance = client_balance (balance (u64_mod - 4)) })
settle_underlying-wraps_example =
    settle_underlying-wraps fundlock.inner (pos 1050) down 1 (transfer (pos 8))
      (transfer (negsuc 8)) (balance 5) waiting datas refl refl refl refl
      (record { token = refl; client = refl; owner = refl }) (omega arith) (omega arith)
      (omega arith) (omega arith)

abbrev debited : MovementData
debited = result datas (settle_underlying fundlock.inner (pos 1050) up 1 datas)

debited_ok : settle_underlying fundlock.inner (pos 1050) up 1 datas ≡ ok debited
unfolding settle_underlying settle change_in_balance abs_i64 neg_i64 fund_from_withdrawal fund_loop
    fund_round take_withdrawal add_u64 sub_u64 add_i64 checked_i64 as_i64 as_u64 ◌+ℤ◌ ◌-ℤ◌
debited_ok = refl

settle_underlying-debits_example : debited.underlying_balance ≡ client_balance (balance 0)
settle_underlying-debits_example =
    settle_underlying-debits fundlock.inner (pos 1050) up 1 (transfer (negsuc 7)) (transfer (pos 9))
      (balance 5) waiting datas debited refl refl refl refl (omega arith) (omega arith)
      (omega arith) debited_ok

-- A ledger with multipliers 10 and 1, and a movement of one amount.
abbrev ledger : Ledger
ledger = record zero_ledger { underlying_multiplier = pos 10; strike_multiplier = pos 1 }

abbrev movements : List FundMovementParam
movements = record { client = 40; underlying_amount = pos 3; strike_amount = pos 0 } ∷ []

abbrev transfers : List Transfer
transfers = result [] (initialize_data ledger movements)

fund_from_withdrawal-entries_example : fund_from_withdrawal (pos 100) (pos 1050) 40 waiting ≡ (
    fund_entries (pos 100) (pos 1050) 40 false waiting.withdrawal_queue 50 0
    >>= written (pos 100) (pos 1050) 40 waiting)
fund_from_withdrawal-entries_example =
    fund_from_withdrawal-entries (pos 100) (pos 1050) 40 waiting (omega arith)
