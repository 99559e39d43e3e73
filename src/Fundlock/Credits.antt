-- ===== src/Fundlock/Credits.antt =====
-- When a deposit goes through.
use ithaca_smart_contract_an.Base.{ℕ, ◌+◌, ◌<◌, ◌≤◌, ◌↔◌, ◌≡◌, some, arith}
use ithaca_smart_contract_an.Program.Errors.{ok}
use ithaca_smart_contract_an.Program.Words.{add_u64, IsU64}
use ithaca_smart_contract_an.Program.Runtime.{Runtime, set_inner, canonical_bump}
use ithaca_smart_contract_an.Program.Space.{client_balance_len, withdrawals_len}
use ithaca_smart_contract_an.Program.Tokens.{TokenProgram}
use ithaca_smart_contract_an.Fundlock.Accounts.{
  FundlockAccounts, client_balance_seeds, withdrawals_seeds,
}
use ithaca_smart_contract_an.Fundlock.Deposit.{deposit_fundlock}
use ithaca_smart_contract_an.Fundlock.Deposit
use ithaca_smart_contract_an.Fundlock.Deposits.{
  vault-opened, accounts-vault, accounts-Ready, deposit-steps,
}

module _ {ℓ} {S : Type ℓ} (tp : TokenProgram S) where
  -- What a deposit of `n` asks for: `ready` are the accounts once the context is checked, `s1` the
  -- state once the vault exists, and `s'` that after the payment.
  pub record CanDeposit (rt : Runtime) (a ready : FundlockAccounts) (s s1 s' : S) (n : ℕ)
      : Type ℓ where
    pub checked : Deposit.try_accounts tp rt a s ≡ ok (ready, s1)
    pub positive : 0 < n
    pub listed : a.whitelisted_token.inner.token_mint ≡ a.token.address
    pub paid :
        tp.transfer s1 a.client_ata.address a.fundlock_token_vault.address a.client n ≡ some s'
    pub balance_fits : IsU64 (ready.client_balance.inner.amount + n)
    pub balance_space : client_balance_len ≤ ready.client_balance.space
    pub queue_space : withdrawals_len ready.withdrawals.inner ≤ ready.withdrawals.space

  -- The accounts after it: the amount is credited.
  abbrev pub paid_in : Runtime → FundlockAccounts → ℕ → FundlockAccounts
  paid_in rt ready n = record ready {
    client_balance = set_inner ready.client_balance (record ready.client_balance.inner {
      amount = ready.client_balance.inner.amount + n;
      token = ready.token.address;
      client = ready.client;
      client_ata = ready.client_ata.address;
      bump = canonical_bump rt (client_balance_seeds ready);
    });
    withdrawals = set_inner ready.withdrawals (record ready.withdrawals.inner {
      client = ready.client;
      bump = canonical_bump rt (withdrawals_seeds ready);
    });
  }

  module _ (rt : Runtime) (a : FundlockAccounts) (s : S) (n : ℕ) where
    -- The parts of the context that the checks keep.
    abbrev Kept : FundlockAccounts → Type 0
    Kept ready =
        (ready.fundlock_token_vault.address ≡ a.fundlock_token_vault.address)
        × (ready.client_ata ≡ a.client_ata)
        × (ready.client ≡ a.client)
        × (ready.token ≡ a.token)
        × (ready.whitelisted_token ≡ a.whitelisted_token)

    ready-Kept :
        (ready : FundlockAccounts) (s1 : S)
        → Deposit.try_accounts tp rt a s ≡ ok (ready, s1)
        → Kept ready
    ready-Kept ready s1 h =
        let r = accounts-Ready tp rt a ready s s1 h in
        let v =
          vault-opened tp rt a s ready.fundlock_token_vault s1
            (accounts-vault tp rt a ready s s1 h) in
        (v.0, r.same_ata, r.same_client, r.same_token, r.same_listing)

    handler-can :
        (ready a' : FundlockAccounts) (s1 s' : S)
        → Kept ready
        → Deposit.try_accounts tp rt a s ≡ ok (ready, s1)
        → deposit_fundlock tp rt a s n ≡ ok (a', s')
        → CanDeposit rt a ready s s1 s' n × (a' ≡ paid_in rt ready n)
    unfolding deposit_fundlock Deposit.handler add_u64
    handler-can ready a' s1 s' kept checked h =
        let h1 = rw checked at h in (ground (arith, h1, kept), ground (arith, h1))

    can-deposit :
        (ready : FundlockAccounts) (s1 s' : S)
        → Kept ready
        → CanDeposit rt a ready s s1 s' n
        → deposit_fundlock tp rt a s n ≡ ok (paid_in rt ready n, s')
    unfolding deposit_fundlock Deposit.handler add_u64
    can-deposit ready s1 s' kept c = rw c.checked (ground (arith, c, kept))

    -- A deposit succeeds exactly when its accounts pass their checks, with the vault, the balance
    -- and the withdrawals opened where they are missing, the amount is positive, the token is the
    -- listed one, the token program moves the amount from the client's account into the vault, the
    -- new balance is a u64, and the accounts have the space; it then credits the balance with the
    -- amount, and sets the balance's token, client, client account and bump, and the withdrawals'
    -- client and bump, to those of the context.
    pub deposit_fundlock_iff :
        (a' : FundlockAccounts) (s' : S)
        → (deposit_fundlock tp rt a s n ≡ ok (a', s')) ↔ (
            (ready : FundlockAccounts) × (s1 : S) × CanDeposit rt a ready s s1 s' n
            × (a' ≡ paid_in rt ready n))
    deposit_fundlock_iff a' s' = (
      λ h.
          let (r, checked, rest) = deposit-steps tp rt a a' s s' n h in
          let (can, e) = handler-can r.0 a' r.1 s' (ready-Kept r.0 r.1 checked) checked h in
          (r.0, r.1, can, e),
      λ (ready, s1, can, e). rw e (can-deposit ready s1 s' (ready-Kept ready s1 can.checked) can),
    )
