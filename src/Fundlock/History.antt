-- ===== src/Fundlock/History.antt =====
-- Many clients on one vault: sequences of deposits, withdrawals and releases, as a step relation.
use ithaca_smart_contract_an.Base.{
  ℕ, ◌+◌, ◌-◌, ◌≤◌, ◌≡◌, ◌≢◌, List, [], ◌∷◌, ◌++◌, ℤ, true, All, All-at, All-replace, arith, inl,
  sym, ◌∙◌,
}
use ithaca_smart_contract_an.Program.Errors.{ok}
use ithaca_smart_contract_an.Program.State.{Pubkey}
use ithaca_smart_contract_an.Program.Runtime.{Runtime}
use ithaca_smart_contract_an.Program.Tokens.{TokenProgram}
use ithaca_smart_contract_an.Fundlock.Accounts.{FundlockAccounts, claim}
use ithaca_smart_contract_an.Fundlock.Deposit.{deposit_fundlock}
use ithaca_smart_contract_an.Fundlock.Withdraw.{withdraw_fundlock}
use ithaca_smart_contract_an.Fundlock.Release.{release_fundlock}
use ithaca_smart_contract_an.Fundlock.Effects.{
  withdraw_fundlock-Withdrawn, release_fundlock-Released,
}
use ithaca_smart_contract_an.Fundlock.Deposits.{deposit_fundlock-Deposited}
use ithaca_smart_contract_an.Fundlock.Solvency.{
  withdraw_fundlock-claim, release_fundlock-conserves, deposit_fundlock-conserves,
}

-- The token program's state, and the accounts of every client of the vault.
pub record World {ℓ} (S : Type ℓ) : Type ℓ where
  pub tokens : S
  pub clients : List FundlockAccounts

abbrev pub claims : List FundlockAccounts → ℕ
claims [] = 0
claims (a ∷ as') = claim a + claims as'

pub claims-append :
    (xs : List FundlockAccounts) (a : FundlockAccounts) (ys : List FundlockAccounts)
    → claims (xs ++ a ∷ ys) ≡ claims xs + claim a + claims ys
claims-append [] a ys = omega arith
claims-append (x ∷ xs) a ys = omega (arith, claims-append xs a ys)

module _ {ℓ} {S : Type ℓ} (tp : TokenProgram S) (rt : Runtime) (vault : Pubkey) where
  -- The accounts of a client of this vault, which exists and is not the client's own account.
  abbrev pub IsClient : FundlockAccounts → Type 0
  IsClient a =
      (a.fundlock_token_vault.address ≡ vault)
      × (a.fundlock_token_vault.exists ≡ true)
      × (a.client_ata.address ≢ vault)

  -- One instruction of one client, or a transaction outside the program, which takes nothing out
  -- of the vault.
  pub data Step (w w' : World S) : Type ℓ where
    deposits :
        (xs : List FundlockAccounts) (a a' : FundlockAccounts) (ys : List FundlockAccounts) (n : ℕ)
        → w.clients ≡ xs ++ a ∷ ys
        → deposit_fundlock tp rt a w.tokens n ≡ ok (a', w'.tokens)
        → w'.clients ≡ xs ++ a' ∷ ys
        → Step w w'
    withdraws :
        (xs : List FundlockAccounts) (a a' : FundlockAccounts) (ys : List FundlockAccounts) (t : ℤ)
        (n : ℕ)
        → w.clients ≡ xs ++ a ∷ ys
        → withdraw_fundlock rt a t n ≡ ok a'
        → w'.clients ≡ xs ++ a' ∷ ys
        → w'.tokens ≡ w.tokens
        → Step w w'
    releases :
        (xs : List FundlockAccounts) (a a' : FundlockAccounts) (ys : List FundlockAccounts) (t : ℤ)
        (i : ℕ)
        → w.clients ≡ xs ++ a ∷ ys
        → release_fundlock tp rt a w.tokens t i ≡ ok (a', w'.tokens)
        → w'.clients ≡ xs ++ a' ∷ ys
        → Step w w'
    outside :
        w'.clients ≡ w.clients → tp.amount w.tokens vault ≤ tp.amount w'.tokens vault → Step w w'

  pub data Reach (w : World S) : World S → Type ℓ where
    here : Reach w w
    next : {u v : World S} → Reach w u → Step u v → Reach w v

  pub record IsSolvent (w : World S) : Type 0 where
    pub members : All IsClient w.clients
    pub covered : claims w.clients ≤ tp.amount w.tokens vault

  -- What comes into the vault from outside the program.
  abbrev pub gained_by : {w w' : World S} → Step w w' → ℕ
  gained_by {w} {w'} (outside e up) = tp.amount w'.tokens vault - tp.amount w.tokens vault
  gained_by st = 0

  -- The clients stay clients, and the claims grow over the vault by `created`, less `gained`.
  pub record IsBalanced (w w' : World S) (created gained : ℕ) : Type 0 where
    pub members : All IsClient w'.clients
    pub balanced :
        claims w'.clients + tp.amount w.tokens vault + gained
        ≡ claims w.clients + tp.amount w'.tokens vault + created

  -- The accounts of one client change; claim and vault move together.
  replaced-IsBalanced :
      (w w' : World S) (xs : List FundlockAccounts) (a a' : FundlockAccounts)
      (ys : List FundlockAccounts)
      → All IsClient w.clients
      → w.clients ≡ xs ++ a ∷ ys
      → w'.clients ≡ xs ++ a' ∷ ys
      → (IsClient a → IsClient a')
      → tp.amount w'.tokens vault + claim a ≡ tp.amount w.tokens vault + claim a'
      → IsBalanced w w' 0 0
  replaced-IsBalanced w w' xs a a' ys c e e' keep moved = record {
    members = rw e' (All-replace IsClient xs a a' ys (rw e at c) keep);
    balanced = rw (e, e') (omega (arith, claims-append xs a ys, claims-append xs a' ys, moved));
  }

  pub client_at :
      (w : World S) (xs : List FundlockAccounts) (a : FundlockAccounts) (ys : List FundlockAccounts)
      → All IsClient w.clients
      → w.clients ≡ xs ++ a ∷ ys
      → IsClient a
  client_at w xs a ys c e = All-at IsClient xs a ys (rw e at c)

  pub Step-IsBalanced :
      {w w' : World S} (st : Step w w') → All IsClient w.clients → IsBalanced w w' 0 (gained_by st)
  Step-IsBalanced {w} {w'} (deposits xs a a' ys n e h e') all =
      let c = client_at w xs a ys all e in
      let d = (deposit_fundlock-Deposited tp rt a a' w.tokens w'.tokens n h).1 in
      let moved =
        deposit_fundlock-conserves tp rt a a' w.tokens w'.tokens n h (rw c.0 c.2) (inl c.1) in
      replaced-IsBalanced w w' xs a a' ys all e e'
        (λ _. (d.vault ∙ c.0, d.vault_exists, rw d.ata c.2)) (rw c.0 at (moved.0))
  Step-IsBalanced {w} {w'} (withdraws xs a a' ys t n e h e' same) all =
      let d = withdraw_fundlock-Withdrawn rt a a' t n h in
      replaced-IsBalanced w w' xs a a' ys all e e' (λ c. rw (d.vault, d.ata) c)
        (rw same (omega (arith, withdraw_fundlock-claim rt a a' t n h)))
  Step-IsBalanced {w} {w'} (releases xs a a' ys t i e h e') all =
      let c = client_at w xs a ys all e in
      let d = (release_fundlock-Released tp rt a a' w.tokens w'.tokens t i h).1 in
      let moved =
        release_fundlock-conserves tp rt a a' w.tokens w'.tokens t i h (λ p. c.2 (sym p ∙ c.0)) in
      replaced-IsBalanced w w' xs a a' ys all e e' (λ c. rw (d.same_vault, d.ata) c)
        (rw c.0 at (moved.0))
  Step-IsBalanced (outside e up) all = record {
    members = rw e all;
    balanced = rw e (omega (arith, up));
  }

  pub IsBalanced-IsSolvent :
      {w w' : World S} {gained : ℕ} → IsSolvent w → IsBalanced w w' 0 gained → IsSolvent w'
  IsBalanced-IsSolvent s b = record {
    members = b.members;
    covered = omega (arith, s.covered, b.balanced);
  }

  pub Step-IsSolvent : {w w' : World S} → Step w w' → IsSolvent w → IsSolvent w'
  Step-IsSolvent st s = IsBalanced-IsSolvent s (Step-IsBalanced st s.members)

  -- From a vault that covers the claims of its clients, every history of their deposits,
  -- withdrawals and releases, with transactions outside the program that take nothing out of the
  -- vault, leads to a vault that covers them.
  pub Reach-IsSolvent : {w w' : World S} → Reach w w' → IsSolvent w → IsSolvent w'
  Reach-IsSolvent here s = s
  Reach-IsSolvent (next r st) s = Step-IsSolvent st (Reach-IsSolvent r s)
