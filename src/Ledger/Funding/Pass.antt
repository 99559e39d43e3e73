-- ===== src/Ledger/Funding/Pass.antt =====
-- The loop of `fund_from_withdrawal` is the pass over the queue.
use mathlib.Core.Path.{subst}
use mathlib.Core.List.{append_assoc}
use ithaca_smart_contract_an.Base.{
  ℕ, zero, suc, ◌+◌, ◌≤◌, ◌≡◌, ℤ, Bool, true, false, List, [], ◌∷◌, ◌++◌, length, length-append,
  if◌then◌else◌, arith, refl, ap, ◌∙◌, sym,
}
use ithaca_smart_contract_an.Program.Errors.{Result, ok, err, panic, ◌>>=◌}
use ithaca_smart_contract_an.Program.Words.{add_i64, IsU64}
use ithaca_smart_contract_an.Program.State.{WithdrawalState, Withdrawals}
use ithaca_smart_contract_an.Ledger.Funding.{Funding, fund_loop, fund_from_withdrawal}
use ithaca_smart_contract_an.Ledger.Funding.Reference.{funding, behind, fund_entries}
use ithaca_smart_contract_an.Ledger.Funding.Rounds.{behind_one, fund_loop-past, one_round}

module _ (trade_lock unix_timestamp : ℤ) (amount : ℕ) where
  abbrev start : Bool → List WithdrawalState → ℕ
  start true before = length before + 1
  start false before = length before

  -- The entry in front of the rest of the queue has been passed over.
  passed_over :
      (before : List WithdrawalState) (w : WithdrawalState) (q : List WithdrawalState)
      (rounds active funded : ℕ)
      → fund_loop trade_lock unix_timestamp amount rounds
          (length (before ++ w ∷ []))
          (funding ((before ++ w ∷ []) ++ q) active funded)
        ≡ (fund_entries trade_lock unix_timestamp amount false q active funded
            >>= behind (before ++ w ∷ []))
      → fund_loop trade_lock unix_timestamp amount rounds
          (length before + 1)
          (funding (before ++ w ∷ q) active funded)
        ≡ ((fund_entries trade_lock unix_timestamp amount false q active funded >>= behind (w ∷ []))
            >>= behind before)
  passed_over before w q rounds active funded h =
      let looped : Result (Bool × Funding) =
        fund_entries trade_lock unix_timestamp amount false q active funded
        >>= behind (before ++ w ∷ []) in
      let here =
        subst
          (λ z.
            fund_loop trade_lock unix_timestamp amount rounds (length (before ++ w ∷ []))
              (funding z active funded)
            ≡ looped)
          (append_assoc before (w ∷ []) q) h in
      subst
        (λ z.
          fund_loop trade_lock unix_timestamp amount rounds z
            (funding (before ++ w ∷ q) active funded)
          ≡ looped)
        (length-append before (w ∷ [])) here
      ∙ sym (
          behind_one trade_lock unix_timestamp amount before w
            (fund_entries trade_lock unix_timestamp amount false q active funded))

  -- From any index on, the loop is the pass over what stands there.
  loop-entries :
      (skip : Bool) (q before : List WithdrawalState) (rounds active funded : ℕ)
      → IsU64 amount
      → funded ≤ amount
      → length q ≤ rounds
      → fund_loop trade_lock unix_timestamp amount rounds
          (start skip before)
          (funding (before ++ q) active funded)
        ≡ (fund_entries trade_lock unix_timestamp amount skip q active funded >>= behind before)
  unfolding fund_loop fund_entries
  loop-entries true [] before rounds active funded u le enough =
      fund_loop-past trade_lock unix_timestamp amount rounds (length before + 1)
        (funding (before ++ []) active funded) (omega (arith, length-append before []))
  loop-entries false [] before rounds active funded u le enough =
      fund_loop-past trade_lock unix_timestamp amount rounds (length before)
        (funding (before ++ []) active funded) (omega (arith, length-append before []))
  loop-entries true (w ∷ q) before rounds active funded u le enough =
      passed_over before w q rounds active funded
        (loop-entries false q (before ++ w ∷ []) rounds active funded u le (omega (arith, enough)))
  loop-entries false (w ∷ q) before zero active funded u le enough = absurd (omega (arith, enough))
  loop-entries false (w ∷ q) before (suc rounds) active funded u le enough =
      one_round trade_lock unix_timestamp amount before w q active funded u le rounds
        (passed_over before w q rounds active funded (
          loop-entries false q (before ++ w ∷ []) rounds active funded u le
            (omega (arith, enough))))
        (λ rest fits.
          loop-entries true q before rounds rest (funded + w.amount) u fits (omega (arith, enough)))
        (add_i64 w.timestamp trade_lock) refl

  -- What the account holds after the pass: the new queue, or the old one if the funding failed.
  abbrev pub written : Withdrawals → Bool × Funding → Result (Bool × Withdrawals)
  written w r =
      if r.0
      then ok (
        true,
        record w { withdrawal_queue = (r.1).queue; active_withdrawals_amount = (r.1).active },
      )
      else ok (false, w)

  unwrap :
      (w : Withdrawals) (r : Result (Bool × Funding))
      → ((r >>= behind []) >>= written w) ≡ (r >>= written w)
  unwrap w (ok r) = refl
  unwrap w (err e) = refl
  unwrap w panic = refl

  -- The loop over the indices, which removes entries while it counts on, is one pass over the
  -- queue: for an amount that u64 holds, `fund_from_withdrawal` gives on every queue, errors and
  -- panics included, what one gets by going through the entries once, using those within the trade
  -- lock and leaving out the entry after each one that is used up without reaching the amount.
  pub fund_from_withdrawal-entries :
      (w : Withdrawals)
      → IsU64 amount
      → fund_from_withdrawal trade_lock unix_timestamp amount w ≡ (
          fund_entries trade_lock unix_timestamp amount false w.withdrawal_queue
            w.active_withdrawals_amount 0
          >>= written w)
  unfolding fund_from_withdrawal
  fund_from_withdrawal-entries w u =
      let q = w.withdrawal_queue in
      let looped =
        loop-entries false q [] (length q) w.active_withdrawals_amount 0 u (omega arith)
          (omega arith) in
      ap (λ z. z >>= written w) looped
      ∙ unwrap w
          (fund_entries trade_lock unix_timestamp amount false q w.active_withdrawals_amount 0)
