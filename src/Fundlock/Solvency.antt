-- ===== src/Fundlock/Solvency.antt =====
-- The fundlock's operations, and what the vault holds against what the client can claim.
use ithaca_smart_contract_an.Base.{
  ℕ, ◌+◌, ◌≡◌, ◌≢◌, ℤ, false, true, arith, inl, inr, ◌⊎◌, some, refl, sym, ◌∙◌,
}
use ithaca_smart_contract_an.Program.Errors.{ok}
use ithaca_smart_contract_an.Program.Runtime.{Runtime}
use ithaca_smart_contract_an.Program.Tokens.{TokenProgram}
use ithaca_smart_contract_an.Fundlock.Accounts.{FundlockAccounts, claim}
use ithaca_smart_contract_an.Fundlock.Deposit.{deposit_fundlock}
use ithaca_smart_contract_an.Fundlock.Withdraw.{withdraw_fundlock}
use ithaca_smart_contract_an.Fundlock.Release.{release_fundlock}
use ithaca_smart_contract_an.Fundlock.Effects.{
  Withdrawn, withdraw_fundlock-Withdrawn, release_fundlock-Released,
}
use ithaca_smart_contract_an.Fundlock.Deposits.{deposit_fundlock-Deposited}

-- A withdrawal leaves the claim as it is: it moves the amount from the balance to the queue.
pub withdraw_fundlock-claim :
    (rt : Runtime) (a a' : FundlockAccounts) (t : ℤ) (n : ℕ)
    → withdraw_fundlock rt a t n ≡ ok a'
    → claim a' ≡ claim a
withdraw_fundlock-claim rt a a' t n h =
    let w : Withdrawn n t a a' = withdraw_fundlock-Withdrawn rt a a' t n h in ground arith

module _ {ℓ} {S : Type ℓ} (tp : TokenProgram S) (rt : Runtime) where
  -- What the vault of these accounts holds.
  abbrev pub vault_amount : FundlockAccounts → S → ℕ
  vault_amount a s = tp.amount s a.fundlock_token_vault.address

  -- A release, to a client's account that is not the vault, lowers the claim and the vault by the
  -- same amount, and pays it to the client.
  pub release_fundlock-conserves :
      (a a' : FundlockAccounts) (s s' : S) (t : ℤ) (i : ℕ)
      → release_fundlock tp rt a s t i ≡ ok (a', s')
      → a.fundlock_token_vault.address ≢ a.client_ata.address
      → (vault_amount a s' + claim a ≡ vault_amount a s + claim a')
        × (tp.amount s' a.client_ata.address + claim a'
            ≡ tp.amount s a.client_ata.address + claim a)
  release_fundlock-conserves a a' s s' t i h ne =
      let (w, r) = release_fundlock-Released tp rt a a' s s' t i h in
      ground (
        arith,
        r,
        tp.transfer_from s a.fundlock_token_vault.address a.client_ata.address a.fundlock.address
            w.amount r.paid ne,
        tp.transfer_to s a.fundlock_token_vault.address a.client_ata.address a.fundlock.address
            w.amount r.paid ne,
      )

  opened_amount :
      (a : FundlockAccounts) (s s1 : S)
      → (a.fundlock_token_vault.exists ≡ true) ⊎ (vault_amount a s ≡ 0)
      → ((a.fundlock_token_vault.exists ≡ true) × (s1 ≡ s))
        ⊎ ((a.fundlock_token_vault.exists ≡ false)
            × (tp.initialize_account s a.fundlock_token_vault.address a.token.address
                  a.fundlock.address
                ≡ some s1))
      → vault_amount a s1 ≡ vault_amount a s
  opened_amount a s s1 empty (inl (e, same)) = rw same refl
  opened_amount a s s1 (inl old) (inr (new, h)) = cc
  opened_amount a s s1 (inr zero_before) (inr (new, h)) =
      tp.initialize_account_empty s a.fundlock_token_vault.address a.token.address
        a.fundlock.address h
      ∙ sym zero_before

  -- A deposit, from a client's account that is not the vault, raises the vault and the claim by the
  -- amount, if a vault that it opens was empty before.
  pub deposit_fundlock-conserves :
      (a a' : FundlockAccounts) (s s' : S) (n : ℕ)
      → deposit_fundlock tp rt a s n ≡ ok (a', s')
      → a.client_ata.address ≢ a.fundlock_token_vault.address
      → (a.fundlock_token_vault.exists ≡ true) ⊎ (vault_amount a s ≡ 0)
      → (vault_amount a s' + claim a ≡ vault_amount a s + claim a') × (claim a' ≡ claim a + n)
  deposit_fundlock-conserves a a' s s' n h ne empty =
      let (s1, d) = deposit_fundlock-Deposited tp rt a a' s s' n h in
      (
        ground (
          arith,
          d.credited,
          opened_amount a s s1 empty d.opened,
          tp.transfer_to s1 a.client_ata.address a.fundlock_token_vault.address a.client n d.paid
              ne,
        ),
        d.credited,
      )
