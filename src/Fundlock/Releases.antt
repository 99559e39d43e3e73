-- ===== src/Fundlock/Releases.antt =====
-- When a release goes through.
use ithaca_smart_contract_an.Base.{
  ℕ, ◌≤◌, ◌≡◌, ◌↔◌, ℤ, ◌+ℤ◌, ◌<ℤ◌, get_elem?, get_elem?-lt, some, none, Option-cases, inl, inr,
  arith, le→leb, refl,
}
use ithaca_smart_contract_an.Program.Errors.{ok}
use ithaca_smart_contract_an.Program.Words.{IsI64, add_i64, checked_i64, sub_u64}
use ithaca_smart_contract_an.Program.State.{WithdrawalState}
use ithaca_smart_contract_an.Program.Space.{withdrawals_len}
use ithaca_smart_contract_an.Program.Runtime.{Runtime}
use ithaca_smart_contract_an.Program.Tokens.{TokenProgram}
use ithaca_smart_contract_an.Fundlock.Accounts.{FundlockAccounts}
use ithaca_smart_contract_an.Fundlock.Release
use ithaca_smart_contract_an.Fundlock.Release.{release_fundlock}
use ithaca_smart_contract_an.Fundlock.Lifecycle.{released, release_ready}

module _ {ℓ} {S : Type ℓ} (tp : TokenProgram S) where
  -- What a release of the entry `w` at index `i` asks for, `s'` being the token program's state
  -- after the payment.
  pub record CanRelease (rt : Runtime) (a : FundlockAccounts) (s s' : S) (t : ℤ) (i : ℕ)
      (w : WithdrawalState) : Type ℓ where
    pub checked : Release.try_accounts rt a ≡ ok tt
    pub entry : get_elem? a.withdrawals.inner.withdrawal_queue i ≡ some w
    pub end_fits : IsI64 (w.timestamp +ℤ a.fundlock.inner.release_lock)
    pub unlocked : w.timestamp +ℤ a.fundlock.inner.release_lock <ℤ t
    pub covered : w.amount ≤ tp.amount s a.fundlock_token_vault.address
    pub paid :
        tp.transfer s a.fundlock_token_vault.address a.client_ata.address a.fundlock.address
          w.amount
        ≡ some s'
    pub active : w.amount ≤ a.withdrawals.inner.active_withdrawals_amount
    pub queue_fits : withdrawals_len (released a i w).withdrawals.inner ≤ a.withdrawals.space

  module _ (rt : Runtime) (a : FundlockAccounts) (s : S) (t : ℤ) (i : ℕ) where
    can-release :
        (s' : S) (w : WithdrawalState)
        → CanRelease rt a s s' t i w
        → release_fundlock tp rt a s t i ≡ ok (released a i w, s')
    unfolding release_fundlock
    can-release s' w c =
        rw
          (
            c.checked,
            release_ready tp a s s' t i w c.entry
                (get_elem?-lt a.withdrawals.inner.withdrawal_queue i c.entry) c.end_fits c.unlocked
                c.covered c.paid c.active,
            le→leb (withdrawals_len (released a i w).withdrawals.inner) a.withdrawals.space
                c.queue_fits,
          )
          refl

    release-can :
        (a' : FundlockAccounts) (s' : S) (w : WithdrawalState)
        → get_elem? a.withdrawals.inner.withdrawal_queue i ≡ some w
        → release_fundlock tp rt a s t i ≡ ok (a', s')
        → CanRelease rt a s s' t i w
    unfolding release_fundlock Release.handler add_i64 checked_i64 sub_u64
    release-can a' s' w e h = ground arith

    nothing_there :
        (a' : FundlockAccounts) (s' : S)
        → get_elem? a.withdrawals.inner.withdrawal_queue i ≡ none
        → release_fundlock tp rt a s t i ≡ ok (a', s')
        → ⊥
    unfolding release_fundlock Release.handler
    nothing_there a' s' e h = ground arith

    same_result :
        (x y : FundlockAccounts) (s' : S)
        → release_fundlock tp rt a s t i ≡ ok (x, s')
        → release_fundlock tp rt a s t i ≡ ok (y, s')
        → x ≡ y
    same_result x y s' h k = ground (arith, h, k)

    -- A release succeeds exactly when its accounts pass their checks, there is an entry at the
    -- index, its release lock has run out, at a time that i64 holds, the vault covers its amount,
    -- the token program pays it to the client's account, the active amount is no less, and the
    -- queue that is left has its space; it then takes the entry out of the queue and its amount off
    -- the active amount, and changes nothing else of the accounts.
    pub release_fundlock_iff :
        (a' : FundlockAccounts) (s' : S)
        → (release_fundlock tp rt a s t i ≡ ok (a', s'))
          ↔ ((w : WithdrawalState) × CanRelease rt a s s' t i w × (a' ≡ released a i w))
    release_fundlock_iff a' s' = (
      λ h. elim (Option-cases (get_elem? a.withdrawals.inner.withdrawal_queue i)) [
        | inl e ↦ absurd (nothing_there a' s' e h)
        | inr (w, e) ↦
            let can = release-can a' s' w e h in
            (w, can, same_result a' (released a i w) s' h (can-release s' w can))
      ],
      λ (w, can, e). rw e (can-release s' w can),
    )
