-- ===== src/Kamino/Balances.antt =====
-- What a deposit into Kamino and a redemption do to the client's balance and to the vault.
use ithaca_smart_contract_an.Base.{ℕ, ◌+◌, ◌≤◌, ◌<◌, ◌≡◌, arith}
use ithaca_smart_contract_an.Program.Errors.{ok}
use ithaca_smart_contract_an.Program.Words.{add_u64, sub_u64}
use ithaca_smart_contract_an.Program.Tokens.{TokenProgram}
use ithaca_smart_contract_an.Kamino.Accounts.{KaminoAccounts, KaminoProgram}
use ithaca_smart_contract_an.Kamino.Deposit
use ithaca_smart_contract_an.Kamino.Redeem

module _ {ℓ} {S : Type ℓ} (tp : TokenProgram S) (kp : KaminoProgram S) where
  -- A deposit into Kamino that succeeds credits the client with exactly the collateral that the
  -- collateral vault gains, for an amount that is positive and within the client's balance. It
  -- leaves the balance as it was, whatever liquidity left the vault.
  pub deposit_kamino-credit :
      (a a' : KaminoAccounts) (s s' : S) (n : ℕ)
      → Deposit.handler tp kp a s n ≡ ok (a', s')
      → (0 < n)
        × (n ≤ a.client_balance.inner.amount)
        × (a'.client_balance.inner.collateral_amount
              + tp.amount s a.fundlock_collateral_vault.address
            ≡ a.client_balance.inner.collateral_amount
              + tp.amount s' a.fundlock_collateral_vault.address)
        × (a'.client_balance.inner.amount ≡ a.client_balance.inner.amount)
  unfolding Deposit.handler add_u64 sub_u64
  deposit_kamino-credit a a' s s' n h = ground arith

  -- A redemption that succeeds takes exactly the amount off the client's collateral, and credits
  -- the balance with exactly the liquidity that the vault gains.
  pub redeem_kamino-credit :
      (a a' : KaminoAccounts) (s s' : S) (n : ℕ)
      → Redeem.handler tp kp a s n ≡ ok (a', s')
      → (0 < n)
        × (a'.client_balance.inner.collateral_amount + n ≡ a.client_balance.inner.collateral_amount)
        × (a'.client_balance.inner.amount + tp.amount s a.fundlock_token_vault.address
            ≡ a.client_balance.inner.amount + tp.amount s' a.fundlock_token_vault.address)
  unfolding Redeem.handler add_u64 sub_u64
  redeem_kamino-credit a a' s s' n h = ground arith

  -- A client who deposits into Kamino and redeems later ends with a balance that is higher than at
  -- the start by everything that the vault received in the redemption: what it paid in the deposit
  -- is never taken off.
  pub deposit_then_redeem :
      (a a1 a2 : KaminoAccounts) (s s1 t t' : S) (n m : ℕ)
      → Deposit.handler tp kp a s n ≡ ok (a1, s1)
      → Redeem.handler tp kp a1 t m ≡ ok (a2, t')
      → a2.client_balance.inner.amount + tp.amount t a1.fundlock_token_vault.address
        ≡ a.client_balance.inner.amount + tp.amount t' a1.fundlock_token_vault.address
  deposit_then_redeem a a1 a2 s s1 t t' n m h k =
      let (u, v, w, same) = deposit_kamino-credit a a1 s s1 n h in
      let (x, y, z) = redeem_kamino-credit a1 a2 t t' m k in omega (arith, same, z)
