-- ===== src/Fundlock/Deposits.antt =====
-- The effects of `deposit_fundlock`.
use ithaca_smart_contract_an.Base.{
  ℕ, ◌+◌, ◌<◌, ◌≡◌, ◌⊎◌, true, false, some, [], if◌then◌else◌, arith,
}
use ithaca_smart_contract_an.Program.Errors.{ok, >>=-eq-ok}
use ithaca_smart_contract_an.Program.Words.{add_u64}
use ithaca_smart_contract_an.Program.State.{TokenAccount}
use ithaca_smart_contract_an.Program.Runtime.{Runtime, Account, init_if_needed}
use ithaca_smart_contract_an.Program.Tokens.{TokenProgram}
use ithaca_smart_contract_an.Fundlock.Accounts.{FundlockAccounts, claim}
use ithaca_smart_contract_an.Fundlock.Deposit.{deposit_fundlock}
use ithaca_smart_contract_an.Fundlock.Deposit

module _ {ℓ} {S : Type ℓ} (tp : TokenProgram S) where
  -- A deposit of `n`; `s1` is the state once the vault exists.
  pub record Deposited (n : ℕ) (a a' : FundlockAccounts) (s s1 s' : S) : Type ℓ where
    pub positive : 0 < n
    pub listed : a.whitelisted_token.inner.token_mint ≡ a.token.address
    pub opened :
        ((a.fundlock_token_vault.exists ≡ true) × (s1 ≡ s))
        ⊎ ((a.fundlock_token_vault.exists ≡ false)
            × (tp.initialize_account s a.fundlock_token_vault.address a.token.address
                  a.fundlock.address
                ≡ some s1))
    pub paid :
        tp.transfer s1 a.client_ata.address a.fundlock_token_vault.address a.client n ≡ some s'
    pub credited : claim a' ≡ claim a + n
    pub keeps_balance : a'.client_balance.exists ≡ true
    pub keeps_queue : a'.withdrawals.exists ≡ true
    pub queue :
        a'.withdrawals.inner.withdrawal_queue
        ≡ (if a.withdrawals.exists then a.withdrawals.inner.withdrawal_queue else [])
    pub active :
        a'.withdrawals.inner.active_withdrawals_amount
        ≡ (if a.withdrawals.exists then a.withdrawals.inner.active_withdrawals_amount else 0)
    pub vault_exists : a'.fundlock_token_vault.exists ≡ true
    pub ata : a'.client_ata ≡ a.client_ata
    pub owner : a'.client_balance.inner.client ≡ a.client
    pub vault : a'.fundlock_token_vault.address ≡ a.fundlock_token_vault.address

  -- The accounts once the context is checked: the missing ones are made, with no claim.
  pub record Ready (a ready : FundlockAccounts) : Type 0 where
    pub same_claim : claim ready ≡ claim a
    pub has_balance : ready.client_balance.exists ≡ true
    pub has_queue : ready.withdrawals.exists ≡ true
    pub same_queue :
        ready.withdrawals.inner.withdrawal_queue
        ≡ (if a.withdrawals.exists then a.withdrawals.inner.withdrawal_queue else [])
    pub same_active :
        ready.withdrawals.inner.active_withdrawals_amount
        ≡ (if a.withdrawals.exists then a.withdrawals.inner.active_withdrawals_amount else 0)
    pub same_ata : ready.client_ata ≡ a.client_ata
    pub same_client : ready.client ≡ a.client
    pub same_token : ready.token ≡ a.token
    pub same_listing : ready.whitelisted_token ≡ a.whitelisted_token

  module _ (rt : Runtime) where
    pub vault-opened :
        (a : FundlockAccounts) (s : S) (v : Account TokenAccount) (s1 : S)
        → Deposit.open_vault tp rt a s ≡ ok (v, s1)
        → (v.address ≡ a.fundlock_token_vault.address)
          × (v.exists ≡ true)
          × (((a.fundlock_token_vault.exists ≡ true) × (s1 ≡ s))
              ⊎ ((a.fundlock_token_vault.exists ≡ false)
                  × (tp.initialize_account s a.fundlock_token_vault.address a.token.address
                        a.fundlock.address
                      ≡ some s1)))
    unfolding Deposit.open_vault
    vault-opened a s v s1 h = ground arith

    pub accounts-vault :
        (a ready : FundlockAccounts) (s s1 : S)
        → Deposit.try_accounts tp rt a s ≡ ok (ready, s1)
        → Deposit.open_vault tp rt a s ≡ ok (ready.fundlock_token_vault, s1)
    unfolding Deposit.try_accounts
    accounts-vault a ready s s1 h = ground arith

    pub accounts-Ready :
        (a ready : FundlockAccounts) (s s1 : S)
        → Deposit.try_accounts tp rt a s ≡ ok (ready, s1)
        → Ready a ready
    unfolding Deposit.try_accounts init_if_needed
    accounts-Ready a ready s s1 h = ground arith

    pub deposit-steps :
        (a a' : FundlockAccounts) (s s' : S) (n : ℕ)
        → deposit_fundlock tp rt a s n ≡ ok (a', s')
        → (r : FundlockAccounts × S) × (Deposit.try_accounts tp rt a s ≡ ok r)
          × (Deposit.handler tp r.0 r.1 n (Deposit.bumps tp rt r.0) ≡ ok (a', s'))
    unfolding deposit_fundlock
    deposit-steps a a' s s' n h =
        let x = >>=-eq-ok (Deposit.try_accounts tp rt a s) _ h in (x.0, x.1, ground (arith, x.2))

  handler-Deposited :
      (a ready a' : FundlockAccounts) (s s1 s' : S) (n : ℕ) (b : Deposit.DepositFundlockBumps)
      → Ready a ready
      → (ready.fundlock_token_vault.address ≡ a.fundlock_token_vault.address)
      → ready.fundlock_token_vault.exists ≡ true
      → ((a.fundlock_token_vault.exists ≡ true) × (s1 ≡ s))
        ⊎ ((a.fundlock_token_vault.exists ≡ false)
            × (tp.initialize_account s a.fundlock_token_vault.address a.token.address
                  a.fundlock.address
                ≡ some s1))
      → Deposit.handler tp ready s1 n b ≡ ok (a', s')
      → Deposited n a a' s s1 s'
  unfolding Deposit.handler add_u64
  handler-Deposited a ready a' s s1 s' n b r v x o h = ground arith

  -- A deposit that succeeds credits the client with exactly the tokens that the token program moved
  -- from the client's account to the vault, which it opens first where it is missing.
  pub deposit_fundlock-Deposited :
      (rt : Runtime) (a a' : FundlockAccounts) (s s' : S) (n : ℕ)
      → deposit_fundlock tp rt a s n ≡ ok (a', s')
      → (s1 : S) × Deposited n a a' s s1 s'
  deposit_fundlock-Deposited rt a a' s s' n h =
      let (r, checked, handled) = deposit-steps rt a a' s s' n h in
      let opened =
        vault-opened rt a s (r.0).fundlock_token_vault r.1
          (accounts-vault rt a r.0 s r.1 checked) in
      (
        r.1,
        handler-Deposited a r.0 a' s r.1 s' n (Deposit.bumps tp rt r.0)
            (accounts-Ready rt a r.0 s r.1 checked) opened.0 opened.1 opened.2 handled,
      )
