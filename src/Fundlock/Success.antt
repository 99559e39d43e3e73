-- ===== src/Fundlock/Success.antt =====
-- When a withdrawal goes through.
use ithaca_smart_contract_an.Base.{
  ℕ, ◌+◌, ◌-◌, ◌<◌, ◌≤◌, ◌≡◌, ◌↔◌, ◌++◌, [], ◌∷◌, ℤ, length, length-append, arith,
}
use ithaca_smart_contract_an.Program.Errors.{ok}
use ithaca_smart_contract_an.Program.Words.{IsU64, add_u64, sub_u64}
use ithaca_smart_contract_an.Program.Space.{client_balance_len, withdrawals_len}
use ithaca_smart_contract_an.Program.Runtime.{Runtime, set_inner}
use ithaca_smart_contract_an.Fundlock.Accounts.{FundlockAccounts}
use ithaca_smart_contract_an.Fundlock.Withdraw
use ithaca_smart_contract_an.Fundlock.Withdraw.{withdraw_fundlock}

-- What a withdrawal asks for.
pub record CanWithdraw (rt : Runtime) (a : FundlockAccounts) (n : ℕ) : Type 0 where
  pub checked : Withdraw.try_accounts rt a ≡ ok tt
  pub positive : 0 < n
  pub covered : n ≤ a.client_balance.inner.amount
  pub room : length a.withdrawals.inner.withdrawal_queue < 5
  pub active_fits : IsU64 (a.withdrawals.inner.active_withdrawals_amount + n)
  pub balance_fits : client_balance_len ≤ a.client_balance.space
  pub queue_fits : withdrawals_len a.withdrawals.inner + 16 ≤ a.withdrawals.space

-- The accounts after it: the amount moves from the balance to the end of the queue.
abbrev pub withdrawn : FundlockAccounts → ℤ → ℕ → FundlockAccounts
withdrawn a t n = record a {
  client_balance = set_inner a.client_balance (record a.client_balance.inner {
    amount = a.client_balance.inner.amount - n;
    token = a.token.address;
    client = a.client;
    client_ata = a.client_ata.address;
  });
  withdrawals = set_inner a.withdrawals (record a.withdrawals.inner {
    withdrawal_queue =
        a.withdrawals.inner.withdrawal_queue ++ record { amount = n; timestamp = t } ∷ [];
    active_withdrawals_amount = a.withdrawals.inner.active_withdrawals_amount + n;
    client = a.client;
  });
}

module _ (rt : Runtime) (a : FundlockAccounts) (t : ℤ) (n : ℕ) where
  queue_length :
      length (withdrawn a t n).withdrawals.inner.withdrawal_queue
      ≡ length a.withdrawals.inner.withdrawal_queue + 1
  queue_length =
      length-append a.withdrawals.inner.withdrawal_queue (record { amount = n; timestamp = t } ∷ [])

  withdraw-can : (a' : FundlockAccounts) → withdraw_fundlock rt a t n ≡ ok a' → CanWithdraw rt a n
  unfolding withdraw_fundlock Withdraw.handler add_u64 sub_u64
  withdraw-can a' h = ground (arith, queue_length)

  can-withdraw : CanWithdraw rt a n → withdraw_fundlock rt a t n ≡ ok (withdrawn a t n)
  unfolding withdraw_fundlock Withdraw.handler add_u64 sub_u64
  can-withdraw c = ground (arith, c, queue_length)

  -- A withdrawal succeeds exactly when its accounts pass their checks, its amount is positive and
  -- within the balance, fewer than five withdrawals are queued, the active amount stays a u64, and
  -- the accounts have the space; it then moves the amount from the balance to the end of the queue
  -- and to the active amount, and sets the balance's token, client and client account and the
  -- queue's client to those of the context.
  pub withdraw_fundlock_iff :
      (a' : FundlockAccounts)
      → (withdraw_fundlock rt a t n ≡ ok a') ↔ (CanWithdraw rt a n × (a' ≡ withdrawn a t n))
  withdraw_fundlock_iff a' = (
    λ h. let can = withdraw-can a' h in (can, (let done = can-withdraw can in cc)),
    λ h. rw h.1 (can-withdraw h.0),
  )
