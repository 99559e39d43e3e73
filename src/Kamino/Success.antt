-- ===== src/Kamino/Success.antt =====
-- When a deposit into Kamino and a redemption go through.
use ithaca_smart_contract_an.Base.{ℕ, ◌+◌, ◌-◌, ◌<◌, ◌≤◌, ◌≡◌, ◌↔◌, some, arith}
use ithaca_smart_contract_an.Program.Errors.{ok, >>=-eq-ok}
use ithaca_smart_contract_an.Program.Words.{IsU64, add_u64, sub_u64}
use ithaca_smart_contract_an.Program.Space.{client_balance_len}
use ithaca_smart_contract_an.Program.Runtime.{Runtime, set_inner}
use ithaca_smart_contract_an.Program.Tokens.{TokenProgram}
use ithaca_smart_contract_an.Kamino.Accounts.{KaminoAccounts, KaminoProgram, reserve_accounts}
use ithaca_smart_contract_an.Kamino.Deposit
use ithaca_smart_contract_an.Kamino.Deposit.{deposit_kamino}
use ithaca_smart_contract_an.Kamino.Redeem
use ithaca_smart_contract_an.Kamino.Redeem.{redeem_kamino}

module _ {ℓ} {S : Type ℓ} (tp : TokenProgram S) (kp : KaminoProgram S) (rt : Runtime) where
  -- The collateral that the collateral vault gains, and the liquidity that the vault gains.
  abbrev pub collateral_gain : KaminoAccounts → S → S → ℕ
  collateral_gain a s s' =
      tp.amount s' a.fundlock_collateral_vault.address
      - tp.amount s a.fundlock_collateral_vault.address

  abbrev pub liquidity_gain : KaminoAccounts → S → S → ℕ
  liquidity_gain a s s' =
      tp.amount s' a.fundlock_token_vault.address - tp.amount s a.fundlock_token_vault.address

  -- What a deposit of `n` asks for: `ready` are the accounts once the context is checked, `s1` the
  -- state once the collateral vault exists, and `s'` that after the call of Kamino.
  pub record CanLend (a ready : KaminoAccounts) (s s1 s' : S) (n : ℕ) : Type ℓ where
    pub checked : Deposit.try_accounts tp kp rt a s ≡ ok (ready, s1)
    pub positive : 0 < n
    pub covered : n ≤ ready.client_balance.inner.amount
    pub called : kp.deposit_reserve_liquidity s1 (reserve_accounts ready) n ≡ some s'
    pub gained :
        tp.amount s1 ready.fundlock_collateral_vault.address
        ≤ tp.amount s' ready.fundlock_collateral_vault.address
    pub fits : IsU64 (ready.client_balance.inner.collateral_amount + collateral_gain ready s1 s')
    pub space : client_balance_len ≤ ready.client_balance.space

  abbrev pub lent_out : KaminoAccounts → S → S → KaminoAccounts
  lent_out ready s1 s' = record ready {
    client_balance = set_inner ready.client_balance (record ready.client_balance.inner {
      collateral_amount =
          ready.client_balance.inner.collateral_amount + collateral_gain ready s1 s';
    });
  }

  -- What a redemption of `n` asks for; `s'` is the state after the call of Kamino.
  pub record CanRedeem (a : KaminoAccounts) (s s' : S) (n : ℕ) : Type ℓ where
    pub checked : Redeem.try_accounts tp kp rt a ≡ ok tt
    pub positive : 0 < n
    pub covered : n ≤ a.client_balance.inner.collateral_amount
    pub called : kp.redeem_reserve_collateral s (reserve_accounts a) n ≡ some s'
    pub gained :
        tp.amount s a.fundlock_token_vault.address ≤ tp.amount s' a.fundlock_token_vault.address
    pub fits : IsU64 (a.client_balance.inner.amount + liquidity_gain a s s')
    pub space : client_balance_len ≤ a.client_balance.space

  abbrev pub redeemed : KaminoAccounts → S → S → ℕ → KaminoAccounts
  redeemed a s s' n = record a {
    client_balance = set_inner a.client_balance (record a.client_balance.inner {
      collateral_amount = a.client_balance.inner.collateral_amount - n;
      amount = a.client_balance.inner.amount + liquidity_gain a s s';
    });
  }

  module _ (a : KaminoAccounts) (s : S) (n : ℕ) where
    lend-can :
        (ready a' : KaminoAccounts) (s1 s' : S)
        → Deposit.try_accounts tp kp rt a s ≡ ok (ready, s1)
        → deposit_kamino tp kp rt a s n ≡ ok (a', s')
        → CanLend a ready s s1 s' n × (a' ≡ lent_out ready s1 s')
    unfolding deposit_kamino Deposit.handler add_u64 sub_u64
    lend-can ready a' s1 s' checked h =
        let h1 = rw checked at h in (ground (arith, h1), ground (arith, h1))

    can-lend :
        (ready : KaminoAccounts) (s1 s' : S)
        → CanLend a ready s s1 s' n
        → deposit_kamino tp kp rt a s n ≡ ok (lent_out ready s1 s', s')
    unfolding deposit_kamino Deposit.handler add_u64 sub_u64
    can-lend ready s1 s' c = rw c.checked (ground (arith, c))

    checked_first :
        (a' : KaminoAccounts) (s' : S)
        → deposit_kamino tp kp rt a s n ≡ ok (a', s')
        → (ready : KaminoAccounts) × (s1 : S) × (Deposit.try_accounts tp kp rt a s ≡ ok (ready, s1))
    unfolding deposit_kamino
    checked_first a' s' h =
        let (r, checked, rest) = >>=-eq-ok (Deposit.try_accounts tp kp rt a s) _ h in
        (r.0, r.1, checked)

    -- A deposit into Kamino succeeds exactly when its accounts pass their checks, with the
    -- collateral vault opened where it is missing, the amount is positive and within the balance,
    -- Kamino takes it, the collateral vault does not lose by it, the new collateral is a u64, and
    -- the balance account has the space. It then adds what the collateral vault gained to the
    -- client's collateral, and changes nothing else of the client's balance.
    pub deposit_kamino_iff :
        (a' : KaminoAccounts) (s' : S)
        → (deposit_kamino tp kp rt a s n ≡ ok (a', s')) ↔ (
            (ready : KaminoAccounts) × (s1 : S) × CanLend a ready s s1 s' n
            × (a' ≡ lent_out ready s1 s'))
    deposit_kamino_iff a' s' = (
      λ h.
          let (ready, s1, checked) = checked_first a' s' h in
          let (can, e) = lend-can ready a' s1 s' checked h in (ready, s1, can, e),
      λ (ready, s1, can, e). rw e (can-lend ready s1 s' can),
    )

    redeem-can :
        (a' : KaminoAccounts) (s' : S)
        → redeem_kamino tp kp rt a s n ≡ ok (a', s')
        → CanRedeem a s s' n × (a' ≡ redeemed a s s' n)
    unfolding redeem_kamino Redeem.handler add_u64 sub_u64
    redeem-can a' s' h = (ground (arith, h), ground (arith, h))

    can-redeem :
        (s' : S) → CanRedeem a s s' n → redeem_kamino tp kp rt a s n ≡ ok (redeemed a s s' n, s')
    unfolding redeem_kamino Redeem.handler add_u64 sub_u64
    can-redeem s' c = ground (arith, c)

    -- A redemption succeeds exactly when its accounts pass their checks, the amount is positive and
    -- within the client's collateral, Kamino takes it, the vault does not lose by it, the new
    -- balance is a u64, and the balance account has the space. It then takes the amount off the
    -- collateral and adds what the vault gained to the balance.
    pub redeem_kamino_iff :
        (a' : KaminoAccounts) (s' : S)
        → (redeem_kamino tp kp rt a s n ≡ ok (a', s'))
          ↔ (CanRedeem a s s' n × (a' ≡ redeemed a s s' n))
    redeem_kamino_iff a' s' = (redeem-can a' s', λ (can, e). rw e (can-redeem s' can))
