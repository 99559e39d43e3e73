-- ===== src/Ledger/Funding/Reference.antt =====
-- `fund_from_withdrawal` without indices: one pass over the queue that leaves out the entry after
-- each one that it uses up.
use ithaca_smart_contract_an.Base.{
  ℕ, ◌+◌, ◌-◌, ℤ, ltb_ℤ, Bool, true, false, List, [], ◌∷◌, ◌++◌, leb, ◌==◌, if◌then◌else◌,
}
use ithaca_smart_contract_an.Program.Errors.{Result, ok, ◌>>=◌}
use ithaca_smart_contract_an.Program.Words.{sub_u64, add_i64}
use ithaca_smart_contract_an.Program.State.{WithdrawalState}
use ithaca_smart_contract_an.Ledger.Funding.{Funding}

abbrev pub funding : List WithdrawalState → ℕ → ℕ → Funding
funding q active funded = record { queue = q; active = active; funded_sum = funded }

-- Entries that stay in front of the rest.
abbrev pub behind : List WithdrawalState → Bool × Funding → Result (Bool × Funding)
behind before r = ok (r.0, record r.1 { queue = before ++ (r.1).queue })

module _ (trade_lock unix_timestamp : ℤ) (amount : ℕ) where
  -- One pass; `skip` leaves out the entry in front.
  unfoldable pub fund_entries : Bool → List WithdrawalState → ℕ → ℕ → Result (Bool × Funding)
  fund_entries skip [] active funded = ok (false, funding [] active funded)
  fund_entries true (w ∷ q) active funded = fund_entries false q active funded >>= behind (w ∷ [])
  fund_entries false (w ∷ q) active funded = do
    lock_end ← add_i64 w.timestamp trade_lock
    if ltb_ℤ unix_timestamp lock_end
        then (if leb w.amount (amount - funded)
            then (sub_u64 active w.amount >>= λ rest.
                if funded + w.amount == amount
                then ok (true, funding q rest (funded + w.amount))
                else fund_entries true q rest (funded + w.amount))
            else (sub_u64 active (amount - funded) >>= λ rest. ok (
              true,
              funding (record w { amount = w.amount - (amount - funded) } ∷ q) rest amount,
            )))
        else (fund_entries false q active funded >>= behind (w ∷ []))
