-- ===== src/Ledger/Funding.antt =====
-- `fund_from_withdrawal` of update_fund_movements.rs: what a balance lacks is taken from the
-- client's queued withdrawals that are still within the trade lock.
pub mod Thinned
pub mod Lowering
pub mod Conservation
pub mod Totality
pub mod Skips
pub mod Reference
pub mod Rounds
pub mod Pass
use ithaca_smart_contract_an.Base.{
  ℕ, zero, suc, ◌+◌, ℤ, ltb_ℤ, Bool, true, false, List, [], ◌∷◌, none, some, length, get_elem?,
  erase_idx, leb, ◌==◌, if◌then◌else◌,
}
use ithaca_smart_contract_an.Program.Errors.{Result, ok, ◌>>=◌}
use ithaca_smart_contract_an.Program.Words.{add_u64, sub_u64, add_i64}
use ithaca_smart_contract_an.Program.State.{WithdrawalState, Withdrawals}

-- The variables of the loop.
pub record Funding : Type 0 where
  pub queue : List WithdrawalState
  pub active : ℕ
  pub funded_sum : ℕ

-- A write out of range changes nothing.
abbrev pub set_amount : List WithdrawalState → ℕ → ℕ → List WithdrawalState
set_amount [] i n = []
set_amount (w ∷ q) zero n = record w { amount = n } ∷ q
set_amount (w ∷ q) (suc i) n = w ∷ set_amount q i n

module _ (trade_lock unix_timestamp : ℤ) (amount : ℕ) where
  -- A withdrawal within the trade lock, at an index of the queue: it is used up and removed if it
  -- is no more than what is left to fund, and lowered otherwise.
  unfoldable pub take_withdrawal : WithdrawalState → ℕ → Funding → Result Funding
  unfolding add_u64 sub_u64
  take_withdrawal withdrawal index st = do
    left_to_fund ← sub_u64 amount st.funded_sum
    if leb withdrawal.amount left_to_fund
        then (add_u64 st.funded_sum withdrawal.amount >>= λ funded.
            sub_u64 st.active withdrawal.amount >>= λ active.
            ok (record { queue = erase_idx st.queue index; active = active; funded_sum = funded }))
        else (add_u64 st.funded_sum left_to_fund >>= λ funded.
            sub_u64 withdrawal.amount left_to_fund >>= λ rest.
            sub_u64 st.active left_to_fund >>= λ active. ok (record {
              queue = set_amount st.queue index rest;
              active = active;
              funded_sum = funded;
            }))

  -- One round of the loop, at an index: is the amount funded now?
  unfoldable pub fund_round : ℕ → Funding → Result (Bool × Funding)
  fund_round index st = elim (get_elem? st.queue index) [
    | none ↦ ok (false, st)
    | some withdrawal ↦ add_i64 withdrawal.timestamp trade_lock >>= λ lock_end.
        if ltb_ℤ unix_timestamp lock_end
        then (take_withdrawal withdrawal index st >>= λ st'. ok (st'.funded_sum == amount, st'))
        else ok (false, st)
  ]

  -- `for index in 0..withdrawals.len()`, with the rounds left; the range is fixed at the start.
  unfoldable pub fund_loop : ℕ → ℕ → Funding → Result (Bool × Funding)
  fund_loop zero index st = ok (false, st)
  fund_loop (suc rounds) index st = fund_round index st >>= λ r. elim r.0 [
    | true ↦ ok (true, r.1)
    | false ↦ fund_loop rounds (index + 1) r.1
  ]

  -- What the account holds afterwards: the new queue, or the old one if the funding failed.
  unfoldable pub fund_from_withdrawal : Withdrawals → Result (Bool × Withdrawals)
  fund_from_withdrawal w =
      fund_loop (length w.withdrawal_queue) 0 (record {
        queue = w.withdrawal_queue;
        active = w.active_withdrawals_amount;
        funded_sum = 0;
      })
      >>= λ r.
          if r.0
          then ok (
            true,
            record w { withdrawal_queue = (r.1).queue; active_withdrawals_amount = (r.1).active },
          )
          else ok (false, w)
