-- ===== src/Kamino/Effects.antt =====
-- What the two Kamino instructions, their account checks included, leave of the client's balance.
use ithaca_smart_contract_an.Base.{ℕ, ◌+◌, ◌≡◌, true, arith}
use ithaca_smart_contract_an.Program.Errors.{ok, >>=-eq-ok}
use ithaca_smart_contract_an.Program.Space.{client_balance_len}
use ithaca_smart_contract_an.Program.Runtime.{Runtime, exit}
use ithaca_smart_contract_an.Program.Tokens.{TokenProgram}
use ithaca_smart_contract_an.Kamino.Accounts.{KaminoAccounts, KaminoProgram, load_client_accounts}
use ithaca_smart_contract_an.Kamino.Deposit
use ithaca_smart_contract_an.Kamino.Deposit.{deposit_kamino}
use ithaca_smart_contract_an.Kamino.Redeem
use ithaca_smart_contract_an.Kamino.Redeem.{redeem_kamino}
use ithaca_smart_contract_an.Kamino.Balances.{deposit_kamino-credit, redeem_kamino-credit}

load_client_accounts-exists :
    (ctx : KaminoAccounts) → load_client_accounts ctx ≡ ok tt → ctx.client_balance.exists ≡ true
unfolding load_client_accounts
load_client_accounts-exists ctx h = ground arith

module _ {ℓ} {S : Type ℓ} (tp : TokenProgram S) (kp : KaminoProgram S) (rt : Runtime) where
  deposit-keeps :
      (a a' : KaminoAccounts) (s s' : S) (n : ℕ)
      → Deposit.handler tp kp a s n ≡ ok (a', s')
      → a'.client_balance.exists ≡ a.client_balance.exists
  unfolding Deposit.handler
  deposit-keeps a a' s s' n h = ground arith

  ready-same :
      (a ready : KaminoAccounts) (s s1 : S)
      → Deposit.try_accounts tp kp rt a s ≡ ok (ready, s1)
      → ready.client_balance ≡ a.client_balance
  unfolding Deposit.try_accounts
  ready-same a ready s s1 h = ground arith

  -- A deposit into Kamino leaves the balance of the client, whatever it takes out of the vault.
  pub deposit_kamino-same_balance :
      (a a' : KaminoAccounts) (s s' : S) (n : ℕ)
      → deposit_kamino tp kp rt a s n ≡ ok (a', s')
      → (a'.client_balance.exists ≡ a.client_balance.exists)
        × (a'.client_balance.inner.amount ≡ a.client_balance.inner.amount)
  unfolding deposit_kamino
  deposit_kamino-same_balance a a' s s' n h =
      let (r, checked, h1) = >>=-eq-ok (Deposit.try_accounts tp kp rt a s) _ h in
      let (d, handled, h2) = >>=-eq-ok (Deposit.handler tp kp r.0 r.1 n) _ h1 in
      let (u, written, h3) = >>=-eq-ok (exit client_balance_len d.0.client_balance) _ h2 in
      let same = ready-same a r.0 s r.1 checked in
      let credit = deposit_kamino-credit tp kp r.0 d.0 r.1 d.1 n handled in
      let keeps = deposit-keeps r.0 d.0 r.1 d.1 n handled in ground (arith, h3, credit, keeps, same)

  redeem-keeps :
      (a a' : KaminoAccounts) (s s' : S) (n : ℕ)
      → Redeem.handler tp kp a s n ≡ ok (a', s')
      → a'.client_balance.exists ≡ a.client_balance.exists
  unfolding Redeem.handler
  redeem-keeps a a' s s' n h = ground arith

  redeem-exists :
      (a : KaminoAccounts) → Redeem.try_accounts tp kp rt a ≡ ok tt → a.client_balance.exists ≡ true
  unfolding Redeem.try_accounts
  redeem-exists a h =
      let (u, loaded, rest) = >>=-eq-ok (load_client_accounts a) _ h in
      load_client_accounts-exists a loaded

  -- A redemption credits the balance of the client, which exists, with what the vault gains.
  pub redeem_kamino-balance :
      (a a' : KaminoAccounts) (s s' : S) (n : ℕ)
      → redeem_kamino tp kp rt a s n ≡ ok (a', s')
      → (a.client_balance.exists ≡ true)
        × (a'.client_balance.exists ≡ true)
        × (a'.client_balance.inner.amount + tp.amount s a.fundlock_token_vault.address
            ≡ a.client_balance.inner.amount + tp.amount s' a.fundlock_token_vault.address)
  unfolding redeem_kamino
  redeem_kamino-balance a a' s s' n h =
      let (r, checked, h1) = >>=-eq-ok (Redeem.try_accounts tp kp rt a) _ h in
      let (d, handled, h2) = >>=-eq-ok (Redeem.handler tp kp a s n) _ h1 in
      let (u, written, h3) = >>=-eq-ok (exit client_balance_len d.0.client_balance) _ h2 in
      let here = redeem-exists a checked in
      let credit = redeem_kamino-credit tp kp a d.0 s d.1 n handled in
      let keeps = redeem-keeps a d.0 s d.1 n handled in ground (arith, h3, credit, keeps, here)
