-- ===== src/Fundlock/Amounts.antt =====
-- The amounts of a client's accounts as u64, under the fundlock's operations.
use ithaca_smart_contract_an.Base.{ℕ, ◌≡◌, ℤ, All, All-append, All-erase_idx, All-replace, arith}
use ithaca_smart_contract_an.Program.Errors.{ok, >>=-eq-ok}
use ithaca_smart_contract_an.Program.Words.{IsU64, add_u64}
use ithaca_smart_contract_an.Program.State.{Pubkey}
use ithaca_smart_contract_an.Program.Runtime.{Runtime, init_if_needed}
use ithaca_smart_contract_an.Program.Tokens.{TokenProgram}
use ithaca_smart_contract_an.Fundlock.Accounts.{FundlockAccounts}
use ithaca_smart_contract_an.Fundlock.Deposit
use ithaca_smart_contract_an.Fundlock.Deposit.{deposit_fundlock}
use ithaca_smart_contract_an.Fundlock.Withdraw
use ithaca_smart_contract_an.Fundlock.Withdraw.{withdraw_fundlock}
use ithaca_smart_contract_an.Fundlock.Release.{release_fundlock}
use ithaca_smart_contract_an.Fundlock.Effects.{
  withdraw_fundlock-Withdrawn, release_fundlock-Released, queued,
}
use ithaca_smart_contract_an.Fundlock.History.{
  World, Step, Reach, deposits, withdraws, releases, outside, here, next,
}

-- Every amount of the client's accounts is a u64.
pub record IsMachine (a : FundlockAccounts) : Type 0 where
  pub balance : IsU64 a.client_balance.inner.amount
  pub collateral : IsU64 a.client_balance.inner.collateral_amount
  pub active : IsU64 a.withdrawals.inner.active_withdrawals_amount
  pub entries : All (λ w. IsU64 w.amount) a.withdrawals.inner.withdrawal_queue

module _ {ℓ} {S : Type ℓ} (tp : TokenProgram S) (rt : Runtime) where
  ready-IsMachine :
      (a ready : FundlockAccounts) (s s1 : S)
      → Deposit.try_accounts tp rt a s ≡ ok (ready, s1)
      → IsMachine a
      → IsMachine ready
  unfolding Deposit.try_accounts init_if_needed
  ready-IsMachine a ready s s1 h m = ground arith

  paid-IsMachine :
      (a a' : FundlockAccounts) (s s' : S) (n : ℕ) (b : Deposit.DepositFundlockBumps)
      → Deposit.handler tp a s n b ≡ ok (a', s')
      → IsMachine a
      → IsMachine a'
  unfolding Deposit.handler add_u64
  paid-IsMachine a a' s s' n b h m = ground arith

  deposit_fundlock-IsMachine :
      (a a' : FundlockAccounts) (s s' : S) (n : ℕ)
      → deposit_fundlock tp rt a s n ≡ ok (a', s')
      → IsMachine a
      → IsMachine a'
  unfolding deposit_fundlock
  deposit_fundlock-IsMachine a a' s s' n h m =
      let (r, checked, h1) = >>=-eq-ok (Deposit.try_accounts tp rt a s) _ h in
      let (d, handled, h2) =
        >>=-eq-ok (Deposit.handler tp r.0 r.1 n (Deposit.bumps tp rt r.0)) _ h1 in
      let ready = ready-IsMachine a r.0 s r.1 checked m in
      let done = paid-IsMachine r.0 d.0 r.1 d.1 n (Deposit.bumps tp rt r.0) handled ready in
      ground (arith, done, h2)

  withdraw-active :
      (a a' : FundlockAccounts) (t : ℤ) (n : ℕ)
      → withdraw_fundlock rt a t n ≡ ok a'
      → IsU64 a'.withdrawals.inner.active_withdrawals_amount
  unfolding withdraw_fundlock Withdraw.handler add_u64
  withdraw-active a a' t n h = ground arith

  withdraw_fundlock-IsMachine :
      (a a' : FundlockAccounts) (t : ℤ) (n : ℕ)
      → withdraw_fundlock rt a t n ≡ ok a'
      → IsMachine a
      → IsMachine a'
  withdraw_fundlock-IsMachine a a' t n h m =
      let d = withdraw_fundlock-Withdrawn rt a a' t n h in
      record {
        balance = omega (arith, d.balance, m.balance);
        collateral = rw d.collateral m.collateral;
        active = withdraw-active a a' t n h;
        entries = rw d.queue (
            All-append (λ w. IsU64 w.amount) a.withdrawals.inner.withdrawal_queue (queued n t)
              m.entries (omega (arith, d.balance, m.balance)));
      }

  release_fundlock-IsMachine :
      (a a' : FundlockAccounts) (s s' : S) (t : ℤ) (i : ℕ)
      → release_fundlock tp rt a s t i ≡ ok (a', s')
      → IsMachine a
      → IsMachine a'
  release_fundlock-IsMachine a a' s s' t i h m =
      let (w, d) = release_fundlock-Released tp rt a a' s s' t i h in
      record {
        balance = rw d.balance m.balance;
        collateral = rw d.balance m.collateral;
        active = omega (arith, d.active, m.active);
        entries =
            rw d.queue (
              All-erase_idx (λ w. IsU64 w.amount) a.withdrawals.inner.withdrawal_queue i m.entries);
      }

module _ {ℓ} {S : Type ℓ} (tp : TokenProgram S) (rt : Runtime) (vault : Pubkey) where
  pub Step-IsMachine :
      {w w' : World S} → Step tp rt vault w w' → All IsMachine w.clients → All IsMachine w'.clients
  Step-IsMachine (deposits xs a a' ys n e h e') m =
      rw e' (
        All-replace IsMachine xs a a' ys (rw e at m)
          (deposit_fundlock-IsMachine tp rt a a' _ _ n h))
  Step-IsMachine (withdraws xs a a' ys t n e h e' same) m =
      rw e' (
        All-replace IsMachine xs a a' ys (rw e at m) (withdraw_fundlock-IsMachine tp rt a a' t n h))
  Step-IsMachine (releases xs a a' ys t i e h e') m = rw e' (
      All-replace IsMachine xs a a' ys (rw e at m)
        (release_fundlock-IsMachine tp rt a a' _ _ t i h))
  Step-IsMachine (outside e up) m = rw e m

  -- The amounts stay machine numbers: from clients whose balances, collaterals, active amounts and
  -- queue entries are all below 2^64, every history of deposits, withdrawals and releases leads to
  -- clients of whom the same holds.
  pub history-IsMachine :
      {w w' : World S} → Reach tp rt vault w w' → All IsMachine w.clients → All IsMachine w'.clients
  history-IsMachine here m = m
  history-IsMachine (next r st) m = Step-IsMachine st (history-IsMachine r m)
