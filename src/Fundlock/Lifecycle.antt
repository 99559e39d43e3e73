-- ===== src/Fundlock/Lifecycle.antt =====
-- From a withdrawal to its release, on the handlers.
use ithaca_smart_contract_an.Base.{
  ℕ, ◌+◌, ◌-◌, ◌≤◌, ◌<◌, ◌≡◌, List, [], ◌∷◌, ◌++◌, ℤ, ◌+ℤ◌, ◌<ℤ◌, length, get_elem?, get_elem?-lt,
  get_elem?-append, some, erase_idx, arith, refl, true, ap,
}
use ithaca_smart_contract_an.Program.Errors.{ok}
use ithaca_smart_contract_an.Program.Words.{sub_u64, add_i64, checked_i64, IsI64}
use ithaca_smart_contract_an.Program.State.{WithdrawalState}
use ithaca_smart_contract_an.Program.Runtime.{set_inner}
use ithaca_smart_contract_an.Program.Tokens.{TokenProgram}
use ithaca_smart_contract_an.Fundlock.Accounts.{FundlockAccounts}
use ithaca_smart_contract_an.Fundlock.Effects.{queued, withdraw_handler-Withdrawn}
use ithaca_smart_contract_an.Fundlock.Withdraw
use ithaca_smart_contract_an.Fundlock.Release

erase_idx-last {ℓ} : {A : Type ℓ} (q : List A) (x : A) → erase_idx (q ++ x ∷ []) (length q) ≡ q
erase_idx-last [] x = refl
erase_idx-last (y ∷ q) x = ap (◌∷◌ y) (erase_idx-last q x)

-- The accounts after the release of `w` at index `i`.
abbrev pub released : FundlockAccounts → ℕ → WithdrawalState → FundlockAccounts
released a i w = record a {
  withdrawals = set_inner a.withdrawals (record a.withdrawals.inner {
    withdrawal_queue = erase_idx a.withdrawals.inner.withdrawal_queue i;
    active_withdrawals_amount = a.withdrawals.inner.active_withdrawals_amount - w.amount;
  });
}

module _ {ℓ} {S : Type ℓ} (tp : TokenProgram S) where
  -- A release of the entry at an index whose guards hold.
  pub release_ready :
      (a : FundlockAccounts) (s s' : S) (t : ℤ) (i : ℕ) (w : WithdrawalState)
      → get_elem? a.withdrawals.inner.withdrawal_queue i ≡ some w
      → i < length a.withdrawals.inner.withdrawal_queue
      → IsI64 (w.timestamp +ℤ a.fundlock.inner.release_lock)
      → w.timestamp +ℤ a.fundlock.inner.release_lock <ℤ t
      → w.amount ≤ tp.amount s a.fundlock_token_vault.address
      → tp.transfer s a.fundlock_token_vault.address a.client_ata.address a.fundlock.address
          w.amount
        ≡ some s'
      → w.amount ≤ a.withdrawals.inner.active_withdrawals_amount
      → Release.handler tp a s t i ≡ ok (released a i w, s')
  unfolding Release.handler add_i64 checked_i64 sub_u64
  release_ready a s s' t i w e lt inr64 unlocked covered paid act = ground arith

  -- A withdrawal that was queued is paid once its release lock has run out, at a time that i64
  -- holds, if the accounts exist, the vault holds the amount and the token program moves it: the
  -- release succeeds, and leaves the queue and the active amount as they were before the
  -- withdrawal, and the balance lower by the amount.
  pub withdraw_then_release :
      (a a1 : FundlockAccounts) (s s' : S) (t t' : ℤ) (n : ℕ)
      → Withdraw.handler a t n ≡ ok a1
      → a.client_balance.exists ≡ true
      → a.withdrawals.exists ≡ true
      → IsI64 (t +ℤ a.fundlock.inner.release_lock)
      → t +ℤ a.fundlock.inner.release_lock <ℤ t'
      → n ≤ tp.amount s a.fundlock_token_vault.address
      → tp.transfer s a.fundlock_token_vault.address a.client_ata.address a.fundlock.address n
        ≡ some s'
      → (a2 : FundlockAccounts) × (Release.handler tp a1 s t'
            (length a.withdrawals.inner.withdrawal_queue)
          ≡ ok (a2, s'))
        × (a2.withdrawals.inner.withdrawal_queue ≡ a.withdrawals.inner.withdrawal_queue)
        × (a2.withdrawals.inner.active_withdrawals_amount
            ≡ a.withdrawals.inner.active_withdrawals_amount)
        × (a2.client_balance.inner.amount + n ≡ a.client_balance.inner.amount)
  withdraw_then_release a a1 s s' t t' n h eb ew fits later covered paid =
      let d = withdraw_handler-Withdrawn a a1 t n h eb ew in
      let old = a.withdrawals.inner.withdrawal_queue in
      let i = length old in
      let w = queued n t in
      let there : get_elem? a1.withdrawals.inner.withdrawal_queue i ≡ some w =
        rw d.queue (get_elem?-append old w []) in
      (
        released a1 i w,
        release_ready a1 s s' t' i w there
            (get_elem?-lt a1.withdrawals.inner.withdrawal_queue i there) (rw d.lock fits)
            (rw d.lock later) (rw d.vault covered) (rw (d.vault, d.ata, d.lock) paid)
            (omega (arith, d.active)),
        rw d.queue (erase_idx-last old w),
        omega (arith, d.active),
        d.balance,
      )
