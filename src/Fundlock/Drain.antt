-- ===== src/Fundlock/Drain.antt =====
-- A client whose withdrawals are all unlocked releases them one after the other.
use ithaca_smart_contract_an.Base.{
  ℕ, zero, suc, ◌+◌, ◌≤◌, ◌≡◌, ◌≢◌, List, [], ◌∷◌, ℤ, ◌+ℤ◌, ◌<ℤ◌, length, get_elem?, erase_idx,
  length-erase_idx-le, some, All, arith, refl, le→leb, ap, ◌∙◌, sym,
}
use ithaca_smart_contract_an.Program.Errors.{Result, ok, ◌>>=◌}
use ithaca_smart_contract_an.Program.Words.{IsI64}
use ithaca_smart_contract_an.Program.State.{WithdrawalState}
use ithaca_smart_contract_an.Program.Space.{withdrawals_len}
use ithaca_smart_contract_an.Program.Runtime.{Runtime}
use ithaca_smart_contract_an.Program.Tokens.{TokenProgram}
use ithaca_smart_contract_an.Fundlock.Accounts.{FundlockAccounts, check_listing, queue_total}
use ithaca_smart_contract_an.Fundlock.Release
use ithaca_smart_contract_an.Fundlock.Release.{release_fundlock}
use ithaca_smart_contract_an.Fundlock.Lifecycle.{released, release_ready}

-- The token program moves what the vault holds to the client's account.
abbrev pub Pays {ℓ} : {S : Type ℓ} → TokenProgram S → FundlockAccounts → Type ℓ
Pays {S} tp a =
    (s : S) (n : ℕ)
    → n ≤ tp.amount s a.fundlock_token_vault.address
    → (s' : S) × (tp.transfer s a.fundlock_token_vault.address a.client_ata.address
          a.fundlock.address n
        ≡ some s')

-- The release lock of an entry has run out at the time, and ends at a time that i64 holds.
abbrev pub IsUnlocked : ℤ → FundlockAccounts → WithdrawalState → Type 0
IsUnlocked t a w =
    IsI64 (w.timestamp +ℤ a.fundlock.inner.release_lock)
    × (w.timestamp +ℤ a.fundlock.inner.release_lock <ℤ t)

module _ {ℓ} {S : Type ℓ} (tp : TokenProgram S) (rt : Runtime) (t : ℤ) where
  -- The releases of a client who asks for the first entry as often as given.
  unfoldable pub drain : ℕ → FundlockAccounts → S → Result (FundlockAccounts × S)
  drain zero a s = ok (a, s)
  drain (suc n) a s = release_fundlock tp rt a s t 0 >>= λ r. drain n r.0 r.1

  released-checked :
      (a : FundlockAccounts) (w : WithdrawalState)
      → Release.try_accounts rt (released a 0 w) ≡ Release.try_accounts rt a
  unfolding Release.try_accounts check_listing
  released-checked a w = refl

  release_first :
      (a : FundlockAccounts) (s s' : S) (w : WithdrawalState) (q : List WithdrawalState)
      → a.withdrawals.inner.withdrawal_queue ≡ w ∷ q
      → Release.try_accounts rt a ≡ ok tt
      → IsUnlocked t a w
      → w.amount ≤ tp.amount s a.fundlock_token_vault.address
      → tp.transfer s a.fundlock_token_vault.address a.client_ata.address a.fundlock.address
          w.amount
        ≡ some s'
      → w.amount ≤ a.withdrawals.inner.active_withdrawals_amount
      → withdrawals_len a.withdrawals.inner ≤ a.withdrawals.space
      → release_fundlock tp rt a s t 0 ≡ ok (released a 0 w, s')
  unfolding release_fundlock
  release_first a s s' w q e checked unlocked covered paid act fits =
      rw
        (
          checked,
          release_ready tp a s s' t 0 w (ap (λ z. get_elem? z 0) e) (omega (arith, ap length e))
              unlocked.0 unlocked.1 covered paid act,
          le→leb (withdrawals_len (released a 0 w).withdrawals.inner) a.withdrawals.space
              (omega (arith, fits, length-erase_idx-le a.withdrawals.inner.withdrawal_queue 0)),
        )
        refl

  pub drain-Pays :
      (q : List WithdrawalState) (a : FundlockAccounts) (s : S)
      → a.withdrawals.inner.withdrawal_queue ≡ q
      → Release.try_accounts rt a ≡ ok tt
      → All (IsUnlocked t a) q
      → queue_total q ≡ a.withdrawals.inner.active_withdrawals_amount
      → withdrawals_len a.withdrawals.inner ≤ a.withdrawals.space
      → queue_total q ≤ tp.amount s a.fundlock_token_vault.address
      → a.fundlock_token_vault.address ≢ a.client_ata.address
      → Pays tp a
      → (a' : FundlockAccounts) × (s' : S) × (drain (length q) a s ≡ ok (a', s'))
        × (a'.withdrawals.inner.withdrawal_queue ≡ [])
        × (a'.withdrawals.inner.active_withdrawals_amount ≡ 0)
        × (a'.client_balance ≡ a.client_balance)
        × (tp.amount s' a.client_ata.address ≡ tp.amount s a.client_ata.address + queue_total q)
  unfolding drain
  drain-Pays [] a s e checked locks total fits covered ne pays =
      (a, s, refl, e, sym total, refl, omega arith)
  drain-Pays (w ∷ q) a s e checked locks total fits covered ne pays =
      let (s1, paid) = pays s w.amount (omega (arith, covered)) in
      let after = released a 0 w in
      let left : after.withdrawals.inner.withdrawal_queue ≡ q = ap (λ z. erase_idx z 0) e in
      let first =
        release_first a s s1 w q e checked locks.0 (omega (arith, covered)) paid
          (omega (arith, total)) fits in
      let from =
        tp.transfer_from s a.fundlock_token_vault.address a.client_ata.address a.fundlock.address
          w.amount paid ne in
      let to =
        tp.transfer_to s a.fundlock_token_vault.address a.client_ata.address a.fundlock.address
          w.amount paid ne in
      let (a', s', rest, empty, none_active, balance, got) =
        drain-Pays q after s1 left (released-checked a w ∙ checked) locks.1 (omega (arith, total))
          (omega (arith, fits, length-erase_idx-le a.withdrawals.inner.withdrawal_queue 0))
          (omega (arith, from, covered)) ne pays in
      (a', s', rw first rest, empty, none_active, balance, omega (arith, got, to))
