-- ===== src/Fundlock/Invariant.antt =====
-- The queue of a client's withdrawals and its active amount, under the fundlock's operations.
use ithaca_smart_contract_an.Base.{
  ℕ, zero, suc, ◌+◌, ◌<◌, ◌≤◌, ◌≡◌, ◌++◌, List, [], ◌∷◌, ℤ, length, length-append, get_elem?, some,
  erase_idx, length-erase_idx-le, All, All-append, All-erase_idx, true, Bool-cases, inl, inr, refl,
  arith, if◌then◌else◌,
}
use ithaca_smart_contract_an.Program.Errors.{ok}
use ithaca_smart_contract_an.Program.State.{WithdrawalState}
use ithaca_smart_contract_an.Program.Runtime.{Runtime}
use ithaca_smart_contract_an.Program.Tokens.{TokenProgram}
use ithaca_smart_contract_an.Fundlock.Accounts.{FundlockAccounts, queue_total}
use ithaca_smart_contract_an.Fundlock.Deposit.{deposit_fundlock}
use ithaca_smart_contract_an.Fundlock.Withdraw.{withdraw_fundlock}
use ithaca_smart_contract_an.Fundlock.Release.{release_fundlock}
use ithaca_smart_contract_an.Fundlock.Effects.{
  withdraw_fundlock-Withdrawn, release_fundlock-Released, queued,
}
use ithaca_smart_contract_an.Fundlock.Deposits.{deposit_fundlock-Deposited}

-- An entry that is not empty.
abbrev pub IsPositive : WithdrawalState → Type 0
IsPositive w = 0 < w.amount

-- A queue whose entries add up to the active amount, at most five of them, and none empty.
pub record IsQueue (q : List WithdrawalState) (active : ℕ) : Type 0 where
  pub total : queue_total q ≡ active
  pub bounded : length q ≤ 5
  pub positive : All IsPositive q

-- The invariant of a client's accounts, of those that exist.
abbrev pub IsValid : FundlockAccounts → Type 0
IsValid a =
    a.withdrawals.exists ≡ true
    → IsQueue a.withdrawals.inner.withdrawal_queue a.withdrawals.inner.active_withdrawals_amount

queue_total-append :
    (q : List WithdrawalState) (w : WithdrawalState)
    → queue_total (q ++ w ∷ []) ≡ queue_total q + w.amount
queue_total-append [] w = omega arith
queue_total-append (x ∷ q) w = omega (arith, queue_total-append q w)

pub queue_total-erase_idx :
    (q : List WithdrawalState) (i : ℕ) (w : WithdrawalState)
    → get_elem? q i ≡ some w
    → queue_total (erase_idx q i) + w.amount ≡ queue_total q
queue_total-erase_idx [] i w h = cc
queue_total-erase_idx (x ∷ q) zero w h = ground arith
queue_total-erase_idx (x ∷ q) (suc i) w h = omega (arith, queue_total-erase_idx q i w h)

-- A withdrawal keeps the invariant.
pub withdraw_fundlock-IsValid :
    (rt : Runtime) (a a' : FundlockAccounts) (t : ℤ) (n : ℕ)
    → withdraw_fundlock rt a t n ≡ ok a'
    → IsValid a
    → IsValid a'
withdraw_fundlock-IsValid rt a a' t n h v e =
    let w = withdraw_fundlock-Withdrawn rt a a' t n h in
    let q = v w.has_queue in
    let old = a.withdrawals.inner.withdrawal_queue in
    rw (w.queue, w.active)
      (record {
        total = omega (arith, queue_total-append old (queued n t), q.total);
        bounded = omega (arith, length-append old (queued n t ∷ []), w.room);
        positive = All-append IsPositive old (queued n t) q.positive w.positive;
      })

module _ {ℓ} {S : Type ℓ} (tp : TokenProgram S) (rt : Runtime) where
  -- A release keeps the invariant.
  pub release_fundlock-IsValid :
      (a a' : FundlockAccounts) (s s' : S) (t : ℤ) (i : ℕ)
      → release_fundlock tp rt a s t i ≡ ok (a', s')
      → IsValid a
      → IsValid a'
  release_fundlock-IsValid a a' s s' t i h v e =
      let (w, r) = release_fundlock-Released tp rt a a' s s' t i h in
      let q = v r.has_queue in
      let old = a.withdrawals.inner.withdrawal_queue in
      rw r.queue (record {
        total = omega (arith, queue_total-erase_idx old i w r.entry, q.total, r.active);
        bounded = omega (arith, length-erase_idx-le old i, q.bounded);
        positive = All-erase_idx IsPositive old i q.positive;
      })

  -- A deposit keeps the invariant, also where it makes the queue.
  pub deposit_fundlock-IsValid :
      (a a' : FundlockAccounts) (s s' : S) (n : ℕ)
      → deposit_fundlock tp rt a s n ≡ ok (a', s')
      → IsValid a
      → IsValid a'
  deposit_fundlock-IsValid a a' s s' n h v e =
      let (s1, d) = deposit_fundlock-Deposited tp rt a a' s s' n h in
      rw (d.queue, d.active)
        (elim (Bool-cases a.withdrawals.exists) [
          | inl old ↦ rw (old, if◌then◌else◌) (v old)
          | inr new ↦
              rw (new, if◌then◌else◌)
                (record { total = refl; bounded = omega arith; positive = tt })
        ])
