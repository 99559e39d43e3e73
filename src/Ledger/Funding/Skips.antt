-- ===== src/Ledger/Funding/Skips.antt =====
-- The loop of `fund_from_withdrawal` removes an entry and goes on to the next index.
use ithaca_smart_contract_an.Base.{ℕ, ◌+◌, ◌<◌, ◌≡◌, ℤ, ◌+ℤ◌, ◌<ℤ◌, false, [], ◌∷◌, arith}
use ithaca_smart_contract_an.Program.Errors.{ok}
use ithaca_smart_contract_an.Program.Words.{add_u64, sub_u64, add_i64, checked_i64, IsI64, IsU64}
use ithaca_smart_contract_an.Program.State.{WithdrawalState, Withdrawals}
use ithaca_smart_contract_an.Ledger.Funding.{
  take_withdrawal, fund_round, fund_loop, fund_from_withdrawal,
}

module _ (trade_lock unix_timestamp : ℤ) (amount : ℕ) where
  -- A queue of two entries within the trade lock that hold exactly the amount together, neither of
  -- them empty, does not fund it: the second entry is skipped.
  pub fund_from_withdrawal-skips :
      (w : Withdrawals) (x y : WithdrawalState)
      → w.withdrawal_queue ≡ x ∷ y ∷ []
      → w.active_withdrawals_amount ≡ x.amount + y.amount
      → x.amount + y.amount ≡ amount
      → 0 < y.amount
      → IsU64 amount
      → IsI64 (x.timestamp +ℤ trade_lock)
      → unix_timestamp <ℤ x.timestamp +ℤ trade_lock
      → fund_from_withdrawal trade_lock unix_timestamp amount w ≡ ok (false, w)
  unfolding fund_from_withdrawal fund_loop fund_round take_withdrawal add_u64 sub_u64 add_i64
      checked_i64
  fund_from_withdrawal-skips w x y q act sum py u fits within = rw q (ground arith)
