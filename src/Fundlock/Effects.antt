-- ===== src/Fundlock/Effects.antt =====
-- The effects of `withdraw_fundlock` and `release_fundlock`.
use ithaca_smart_contract_an.Base.{
  ℕ, ◌+◌, ◌<◌, ◌≡◌, ◌++◌, [], ◌∷◌, ℤ, ◌+ℤ◌, ◌<ℤ◌, length, get_elem?, some, none, erase_idx, arith,
  true, Option-cases, inl, inr,
}
use ithaca_smart_contract_an.Program.Errors.{ok}
use ithaca_smart_contract_an.Program.Words.{sub_u64, add_i64, checked_i64}
use ithaca_smart_contract_an.Program.State.{WithdrawalState}
use ithaca_smart_contract_an.Program.Runtime.{Runtime}
use ithaca_smart_contract_an.Program.Tokens.{TokenProgram}
use ithaca_smart_contract_an.Fundlock.Accounts.{FundlockAccounts}
use ithaca_smart_contract_an.Fundlock.Withdraw.{withdraw_fundlock}
use ithaca_smart_contract_an.Fundlock.Withdraw
use ithaca_smart_contract_an.Fundlock.Release.{release_fundlock}
use ithaca_smart_contract_an.Fundlock.Release

-- The entry that a withdrawal adds to the queue.
abbrev pub queued : ℕ → ℤ → WithdrawalState
queued n t = record { amount = n; timestamp = t }

-- A withdrawal of `n` at time `t`, from `a` to `a'`.
pub record Withdrawn (n : ℕ) (t : ℤ) (a a' : FundlockAccounts) : Type 0 where
  pub positive : 0 < n
  pub room : length a.withdrawals.inner.withdrawal_queue < 5
  pub has_balance : a.client_balance.exists ≡ true
  pub has_queue : a.withdrawals.exists ≡ true
  pub keeps_balance : a'.client_balance.exists ≡ true
  pub keeps_queue : a'.withdrawals.exists ≡ true
  pub balance : a'.client_balance.inner.amount + n ≡ a.client_balance.inner.amount
  pub queue :
      a'.withdrawals.inner.withdrawal_queue
      ≡ a.withdrawals.inner.withdrawal_queue ++ queued n t ∷ []
  pub active :
      a'.withdrawals.inner.active_withdrawals_amount
      ≡ a.withdrawals.inner.active_withdrawals_amount + n
  pub collateral :
      a'.client_balance.inner.collateral_amount ≡ a.client_balance.inner.collateral_amount
  pub vault : a'.fundlock_token_vault ≡ a.fundlock_token_vault
  pub ata : a'.client_ata ≡ a.client_ata
  pub lock : a'.fundlock ≡ a.fundlock

withdraw-loaded :
    (rt : Runtime) (a a' : FundlockAccounts) (t : ℤ) (n : ℕ)
    → withdraw_fundlock rt a t n ≡ ok a'
    → (a.client_balance.exists ≡ true) × (a.withdrawals.exists ≡ true)
unfolding withdraw_fundlock Withdraw.try_accounts
withdraw-loaded rt a a' t n h = ground arith

withdraw-handled :
    (rt : Runtime) (a a' : FundlockAccounts) (t : ℤ) (n : ℕ)
    → withdraw_fundlock rt a t n ≡ ok a'
    → Withdraw.handler a t n ≡ ok a'
unfolding withdraw_fundlock
withdraw-handled rt a a' t n h = ground arith

pub withdraw_handler-Withdrawn :
    (a a' : FundlockAccounts) (t : ℤ) (n : ℕ)
    → Withdraw.handler a t n ≡ ok a'
    → a.client_balance.exists ≡ true
    → a.withdrawals.exists ≡ true
    → Withdrawn n t a a'
unfolding Withdraw.handler
withdraw_handler-Withdrawn a a' t n h eb ew = ground arith

pub withdraw_fundlock-Withdrawn :
    (rt : Runtime) (a a' : FundlockAccounts) (t : ℤ) (n : ℕ)
    → withdraw_fundlock rt a t n ≡ ok a'
    → Withdrawn n t a a'
withdraw_fundlock-Withdrawn rt a a' t n h =
    let e = withdraw-loaded rt a a' t n h in
    withdraw_handler-Withdrawn a a' t n (withdraw-handled rt a a' t n h) e.0 e.1

module _ {ℓ} {S : Type ℓ} (tp : TokenProgram S) where
  -- A release of the entry `w` at index `i` and time `t`.
  pub record Released (w : WithdrawalState) (t : ℤ) (i : ℕ) (a a' : FundlockAccounts) (s s' : S)
      : Type ℓ where
    pub entry : get_elem? a.withdrawals.inner.withdrawal_queue i ≡ some w
    pub unlocked : w.timestamp +ℤ a.fundlock.inner.release_lock <ℤ t
    pub has_queue : a.withdrawals.exists ≡ true
    pub keeps_queue : a'.withdrawals.exists ≡ true
    pub queue :
        a'.withdrawals.inner.withdrawal_queue ≡ erase_idx a.withdrawals.inner.withdrawal_queue i
    pub active :
        a'.withdrawals.inner.active_withdrawals_amount + w.amount
        ≡ a.withdrawals.inner.active_withdrawals_amount
    pub balance : a'.client_balance ≡ a.client_balance
    pub same_vault : a'.fundlock_token_vault ≡ a.fundlock_token_vault
    pub ata : a'.client_ata ≡ a.client_ata
    pub paid :
        tp.transfer s a.fundlock_token_vault.address a.client_ata.address a.fundlock.address
          w.amount
        ≡ some s'

  release-loaded :
      (rt : Runtime) (a a' : FundlockAccounts) (s s' : S) (t : ℤ) (i : ℕ)
      → release_fundlock tp rt a s t i ≡ ok (a', s')
      → (a.client_balance.exists ≡ true) × (a.withdrawals.exists ≡ true)
  unfolding release_fundlock Release.try_accounts
  release-loaded rt a a' s s' t i h = ground arith

  release-handled :
      (rt : Runtime) (a a' : FundlockAccounts) (s s' : S) (t : ℤ) (i : ℕ)
      → release_fundlock tp rt a s t i ≡ ok (a', s')
      → Release.handler tp a s t i ≡ ok (a', s')
  unfolding release_fundlock
  release-handled rt a a' s s' t i h = ground arith

  release_handler-Released :
      (a a' : FundlockAccounts) (s s' : S) (t : ℤ) (i : ℕ) (w : WithdrawalState)
      → get_elem? a.withdrawals.inner.withdrawal_queue i ≡ some w
      → Release.handler tp a s t i ≡ ok (a', s')
      → a.withdrawals.exists ≡ true
      → Released w t i a a' s s'
  unfolding Release.handler add_i64 checked_i64 sub_u64
  release_handler-Released a a' s s' t i w e h ew = ground arith

  no_entry :
      (a a' : FundlockAccounts) (s s' : S) (t : ℤ) (i : ℕ)
      → get_elem? a.withdrawals.inner.withdrawal_queue i ≡ none
      → Release.handler tp a s t i ≡ ok (a', s')
      → ⊥
  unfolding Release.handler
  no_entry a a' s s' t i e h = ground arith

  pub release_fundlock-Released :
      (rt : Runtime) (a a' : FundlockAccounts) (s s' : S) (t : ℤ) (i : ℕ)
      → release_fundlock tp rt a s t i ≡ ok (a', s')
      → (w : WithdrawalState) × Released w t i a a' s s'
  release_fundlock-Released rt a a' s s' t i h =
      let run = release-handled rt a a' s s' t i h in
      elim (Option-cases (get_elem? a.withdrawals.inner.withdrawal_queue i)) [
        | inl e ↦ absurd (no_entry a a' s s' t i e run)
        | inr (w, e) ↦ (
          w,
          release_handler-Released a a' s s' t i w e run (release-loaded rt a a' s s' t i h).1,
        )
      ]
