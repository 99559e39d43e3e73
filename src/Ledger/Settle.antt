-- ===== src/Ledger/Settle.antt =====
-- `update_balances_fundlock` of update_fund_movements.rs: the transfers are applied to the balances
-- of the clients, in the accounts that the instruction was given.
pub mod Exact
pub mod Misindexed
use ithaca_smart_contract_an.Base.{
  ℕ, suc, ◌+◌, ◌*◌, ℤ, pos, ltb_ℤ, true, ◌&&◌, List, [], ◌∷◌, get_elem?, leb, ◌==◌, if◌then◌else◌,
}
use ithaca_smart_contract_an.Program.Errors.{
  Result, ok, err, ◌>>=◌, ◌>>◌, require, or_panic, expect, anchor, AnchorError, fundlock,
  FundlockError,
}
use ithaca_smart_contract_an.Program.Words.{sub_u64, add_i64, neg_i64, abs_i64, as_i64, as_u64}
use ithaca_smart_contract_an.Program.State.{Pubkey, Fundlock, ClientBalance, Withdrawals}
use ithaca_smart_contract_an.Ledger.Funding.{fund_from_withdrawal}

-- The data of an account that is not checked by its type.
pub data AccountData : Type 0 where
  client_balance : ClientBalance → AccountData
  withdrawals : Withdrawals → AccountData
  other : AccountData

-- `ClientBalance::try_deserialize`
abbrev pub deserialize_client_balance : AccountData → Result ClientBalance
deserialize_client_balance (client_balance b) = ok b
deserialize_client_balance _ = err (anchor AnchorError.account_discriminator_mismatch)

-- `Withdrawals::try_deserialize`
abbrev pub deserialize_withdrawals : AccountData → Result Withdrawals
deserialize_withdrawals (withdrawals w) = ok w
deserialize_withdrawals _ = err (anchor AnchorError.account_discriminator_mismatch)

-- The four accounts of one fund movement: the entries at its index of the four lists of borrowed
-- data.
pub record MovementData : Type 0 where
  pub underlying_balance : AccountData
  pub strike_balance : AccountData
  pub underlying_withdrawals : AccountData
  pub strike_withdrawals : AccountData

-- The entries at one index of the three lists `clients`, `tokens` and `amounts`.
pub record Transfer : Type 0 where
  pub client : Pubkey
  pub token : Pubkey
  pub amount : ℤ

module _ (lock : Fundlock) (unix_timestamp : ℤ) where
  -- The change of a balance and what is left of the withdrawals. The first amount is the one that
  -- the source tests for being positive.
  unfoldable pub change_in_balance :
      ℤ → Transfer → ClientBalance → Withdrawals → Result (ℤ × Withdrawals)
  change_in_balance tested t balance w = do
    covered ←
        if ltb_ℤ (pos 0) tested
        then ok true
        else (abs_i64 t.amount >>= λ magnitude. ok (leb magnitude balance.amount))
    if covered
        then ok (t.amount, w)
        else (abs_i64 t.amount >>= λ amount_to_deduct. neg_i64 (as_i64 balance.amount) >>= λ change.
            sub_u64 amount_to_deduct balance.amount >>= λ shortage.
            fund_from_withdrawal lock.trade_lock unix_timestamp shortage w >>= λ r.
            require r.0 (fundlock FundlockError.insufficient_funds) >> ok (change, r.1))

  -- One balance with its withdrawals: the test is on the amount at `tested`, the transfer is the
  -- one at `index`.
  unfoldable pub settle :
      List Transfer → ℕ → ℕ → AccountData → AccountData → Result (AccountData × AccountData)
  settle transfers tested index balance_data withdrawals_data = do
    balance ← expect (deserialize_client_balance balance_data)
    t ← or_panic (get_elem? transfers index)
    require (balance.token == t.token && balance.client == t.client)
        (fundlock FundlockError.account_order_violated)
    w ← expect (deserialize_withdrawals withdrawals_data)
    require (t.client == w.client) (fundlock FundlockError.account_order_violated)
    test ← or_panic (get_elem? transfers tested)
    r ← change_in_balance test.amount t balance w
    amount ← add_i64 (as_i64 balance.amount) r.0
    ok (client_balance (record balance { amount = as_u64 amount }), withdrawals r.1)

  -- The underlying token: the source tests `amounts[i]`, and applies `amounts[i * 2]`.
  unfoldable pub settle_underlying : List Transfer → ℕ → MovementData → Result MovementData
  settle_underlying transfers i d = do
    r ← settle transfers i (i * 2) d.underlying_balance d.underlying_withdrawals
    ok (record d { underlying_balance = r.0; underlying_withdrawals = r.1 })

  unfoldable pub settle_strike : List Transfer → ℕ → MovementData → Result MovementData
  settle_strike transfers i d = do
    r ← settle transfers (i * 2 + 1) (i * 2 + 1) d.strike_balance d.strike_withdrawals
    ok (record d { strike_balance = r.0; strike_withdrawals = r.1 })

  -- `for i in 0..client_balance_underlying_datas.len()`, from `i` on
  unfoldable pub update_balances_fundlock :
      List Transfer → ℕ → List MovementData → Result (List MovementData)
  update_balances_fundlock transfers i [] = ok []
  update_balances_fundlock transfers i (d ∷ ds) = do
    d' ← settle_underlying transfers i d
    d'' ← settle_strike transfers i d'
    ds' ← update_balances_fundlock transfers (suc i) ds
    ok (d'' ∷ ds')
