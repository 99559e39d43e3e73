-- ===== src/Exchange/Lending.antt =====
-- Deposits into Kamino and redemptions among the operations of the fundlock and the ledger.
use mathlib.Core.Path.{subst}
use ithaca_smart_contract_an.Base.{
  pos_part, neg_part, ℕ, ◌<◌, ◌+◌, ◌-◌, ◌≡◌, true, List, ◌∷◌, ◌++◌, All, All-replace, arith,
}
use ithaca_smart_contract_an.Program.Errors.{ok}
use ithaca_smart_contract_an.Program.State.{Pubkey}
use ithaca_smart_contract_an.Program.Runtime.{Runtime}
use ithaca_smart_contract_an.Program.Tokens.{TokenProgram}
use ithaca_smart_contract_an.Fundlock.Accounts.{FundlockAccounts, claim}
use ithaca_smart_contract_an.Fundlock.Invariant.{IsValid}
use ithaca_smart_contract_an.Fundlock.History as Vault
use ithaca_smart_contract_an.Fundlock.History.{
  World, IsSolvent, IsClient, claims, claims-append, IsBalanced,
}
use ithaca_smart_contract_an.Kamino.Accounts.{KaminoAccounts, KaminoProgram}
use ithaca_smart_contract_an.Kamino.Deposit.{deposit_kamino}
use ithaca_smart_contract_an.Kamino.Redeem.{redeem_kamino}
use ithaca_smart_contract_an.Kamino.Effects.{deposit_kamino-same_balance, redeem_kamino-balance}
use ithaca_smart_contract_an.Ledger.Movements.Clients.{Side}
use ithaca_smart_contract_an.Exchange.Queues.{fundlock-IsValid}
use ithaca_smart_contract_an.Exchange.History as Exchange
use ithaca_smart_contract_an.Exchange.History.{
  fundlock, settles, Settles, change_by, Settles-AllMoved, Settles-IsBalanced, Settles-IsValid,
}

-- The client of the fundlock with the balance that a Kamino instruction wrote.
abbrev pub with_balance : FundlockAccounts → KaminoAccounts → FundlockAccounts
with_balance a k = record a { client_balance = k.client_balance }

module _ {ℓ} {S : Type ℓ} (tp : TokenProgram S) (kp : KaminoProgram S) (rt : Runtime)
    (vault : Pubkey) where
  -- A client of the vault, and the accounts of a Kamino instruction on the same balance and vault.
  pub record IsLender (w w' : World S) (k k' : KaminoAccounts) : Type ℓ where
    pub xs : List FundlockAccounts
    pub a : FundlockAccounts
    pub ys : List FundlockAccounts
    pub before : w.clients ≡ xs ++ a ∷ ys
    pub same_balance : k.client_balance ≡ a.client_balance
    pub same_vault : k.fundlock_token_vault.address ≡ vault
    pub after : w'.clients ≡ xs ++ with_balance a k' ∷ ys

  pub data Step (w w' : World S) : Type ℓ where
    exchange : Exchange.Step tp rt vault w w' → Step w w'
    updates : (side : Side) → Settles tp rt vault side w w' → Step w w'
    lends :
        (k k' : KaminoAccounts) (n : ℕ)
        → IsLender w w' k k'
        → deposit_kamino tp kp rt k w.tokens n ≡ ok (k', w'.tokens)
        → Step w w'
    redeems :
        (k k' : KaminoAccounts) (n : ℕ)
        → IsLender w w' k k'
        → redeem_kamino tp kp rt k w.tokens n ≡ ok (k', w'.tokens)
        → Step w w'

  pub data Reach (w : World S) : World S → Type ℓ where
    here : Reach w w
    next : {u v : World S} → Reach w u → Step u v → Reach w v

  -- What a step takes out of the vault, or adds to a claim, without doing the other.
  abbrev pub unbacked_by : {w w' : World S} → Step w w' → ℕ
  unbacked_by {w} {w'} (lends k k' n l h) = tp.amount w.tokens vault - tp.amount w'.tokens vault
  unbacked_by (updates side u) = pos_part (change_by tp rt vault u)
  unbacked_by st = 0

  -- What a step brings into the vault, or takes off a claim, without doing the other.
  abbrev pub gained_by : {w w' : World S} → Step w w' → ℕ
  gained_by {w} {w'} (lends k k' n l h) = tp.amount w'.tokens vault - tp.amount w.tokens vault
  gained_by (exchange (fundlock st)) = Vault.gained_by tp rt vault st
  gained_by (exchange (settles side u none)) = neg_part (change_by tp rt vault u)
  gained_by (updates side u) = neg_part (change_by tp rt vault u)
  gained_by st = 0

  abbrev pub all_unbacked : {w w' : World S} → Reach w w' → ℕ
  all_unbacked here = 0
  all_unbacked (next r st) = all_unbacked r + unbacked_by st

  abbrev pub all_gained : {w w' : World S} → Reach w w' → ℕ
  all_gained here = 0
  all_gained (next r st) = all_gained r + gained_by st

  -- The clients of a vault, with valid queues.
  pub record IsServed (w : World S) : Type 0 where
    pub members : All (IsClient tp rt vault) w.clients
    pub valid : All IsValid w.clients

  -- The claims grow over the vault by what is lent, and the vault over the claims by what is
  -- gained.
  pub record IsAccounted (w w' : World S) (lent gained : ℕ) : Type 0 where
    pub served : IsServed w'
    pub balanced :
        claims w'.clients + tp.amount w.tokens vault + gained
        ≡ claims w.clients + tp.amount w'.tokens vault + lent

  lender-IsAccounted :
      (w w' : World S) (k k' : KaminoAccounts) (lent gained : ℕ) (l : IsLender w w' k k')
      → claim (with_balance l.a k') + tp.amount w.tokens vault + gained
        ≡ claim l.a + tp.amount w'.tokens vault + lent
      → IsServed w
      → IsAccounted w w' lent gained
  lender-IsAccounted w w' k k' lent gained l moved s =
      let a' = with_balance l.a k' in
      record {
        served = record {
          members = rw l.after (
              All-replace (IsClient tp rt vault) l.xs l.a a' l.ys (rw l.before at (s.members))
                (λ c. c));
          valid =
              rw l.after (All-replace IsValid l.xs l.a a' l.ys (rw l.before at (s.valid)) (λ v. v));
        };
        balanced =
            rw (l.before, l.after)
              (omega (arith, claims-append l.xs l.a l.ys, claims-append l.xs a' l.ys, moved));
      }

  lent_claim :
      (a : FundlockAccounts) (k k' : KaminoAccounts)
      → k.client_balance ≡ a.client_balance
      → (k'.client_balance.exists ≡ k.client_balance.exists)
        × (k'.client_balance.inner.amount ≡ k.client_balance.inner.amount)
      → claim (with_balance a k') ≡ claim a
  lent_claim a k k' same h = ground arith

  redeemed_claim :
      (a : FundlockAccounts) (k k' : KaminoAccounts) (before after : ℕ)
      → k.client_balance ≡ a.client_balance
      → k.client_balance.exists ≡ true
      → k'.client_balance.exists ≡ true
      → k'.client_balance.inner.amount + before ≡ k.client_balance.inner.amount + after
      → claim (with_balance a k') + before + 0 ≡ claim a + after + 0
  redeemed_claim a k k' before after same e e' h = ground arith

  updated-IsAccounted :
      {w w' : World S} (side : Side) (u : Settles tp rt vault side w w')
      → IsServed w
      → IsAccounted w w' (pos_part (change_by tp rt vault u)) (neg_part (change_by tp rt vault u))
  updated-IsAccounted side u s =
      let moved = Settles-AllMoved tp rt vault u s.valid in
      let b = Settles-IsBalanced tp rt vault u moved s.members in
      record {
        served = record {
          members = b.members;
          valid = Settles-IsValid tp rt vault u moved s.valid;
        };
        balanced = b.balanced;
      }

  Step-IsAccounted :
      {w w' : World S} (st : Step w w')
      → IsServed w
      → IsAccounted w w' (unbacked_by st) (gained_by st)
  Step-IsAccounted (exchange (fundlock st)) s =
      let b = Vault.Step-IsBalanced tp rt vault st s.members in
      record {
        served = record { members = b.members; valid = fundlock-IsValid tp rt vault st s.valid };
        balanced = omega (arith, b.balanced);
      }
  Step-IsAccounted {w} {w'} (exchange (settles side u none)) s =
      subst (λ n. IsAccounted w w' n (neg_part (change_by tp rt vault u))) none
        (updated-IsAccounted side u s)
  Step-IsAccounted (updates side u) s = updated-IsAccounted side u s
  Step-IsAccounted {w} {w'} (lends k k' n l h) s =
      let kept = deposit_kamino-same_balance tp kp rt k k' w.tokens w'.tokens n h in
      lender-IsAccounted w w' k k' _ _ l (omega (arith, lent_claim l.a k k' l.same_balance kept)) s
  Step-IsAccounted {w} {w'} (redeems k k' n l h) s =
      let (e, e', moved) = redeem_kamino-balance tp kp rt k k' w.tokens w'.tokens n h in
      lender-IsAccounted w w' k k' 0 0 l
        (redeemed_claim l.a k k' _ _ l.same_balance e e' (rw l.same_vault at moved)) s

  -- What uncovers a vault, to the last unit: from clients of it with valid queues, over every
  -- history of their deposits, withdrawals and releases, of updates of fund movements, with
  -- transfers whose tested amounts have the signs of the applied ones and while all claims together
  -- are below 2^63, of deposits into Kamino and redemptions on its clients' balances, and of
  -- transactions outside the program that take nothing out of it, the claims over the vault grow by
  -- exactly what the deposits into Kamino took out and what updates added to the claims on its
  -- token together, less what came in from outside or with those deposits and what updates took off
  -- the claims. No redemption repays any of it.
  pub lending_history-IsAccounted :
      {w w' : World S} (r : Reach w w')
      → IsServed w
      → IsAccounted w w' (all_unbacked r) (all_gained r)
  lending_history-IsAccounted here s = record { served = s; balanced = omega arith }
  lending_history-IsAccounted (next r st) s =
      let before = lending_history-IsAccounted r s in
      let step = Step-IsAccounted st before.served in
      record { served = step.served; balanced = omega (arith, before.balanced, step.balanced) }

  -- A vault that covers its clients' claims exactly, with valid queues, no longer covers them after
  -- a history of their operations, of updates of fund movements, with transfers whose tested
  -- amounts have the signs of the applied ones and while all claims together are below 2^63, and of
  -- deposits into Kamino and redemptions, if deposits into Kamino took something out of it or an
  -- update added to the claims together, and nothing came in from outside or with those deposits
  -- and no update took off the claims together: the claims exceed the vault, and by exactly what
  -- was taken and added, whatever redemptions followed.
  pub lending_history-uncovered :
      {w w' : World S} (r : Reach w w')
      → IsServed w
      → claims w.clients ≡ tp.amount w.tokens vault
      → all_gained r ≡ 0
      → 0 < all_unbacked r
      → (claims w'.clients ≡ tp.amount w'.tokens vault + all_unbacked r)
        × (¬ IsSolvent tp rt vault w')
  lending_history-uncovered r s exact none_gained some_unbacked =
      let b = (lending_history-IsAccounted r s).balanced in
      (
        omega (arith, b, exact, none_gained),
        λ solvent. omega (arith, solvent.covered, b, exact, none_gained, some_unbacked),
      )
