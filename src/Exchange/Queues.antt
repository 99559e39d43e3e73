-- ===== src/Exchange/Queues.antt =====
-- The queues and the balances of a vault's clients, under the operations of the fundlock and the
-- ledger's updates.
use ithaca_smart_contract_an.Base.{
  ◌≤◌, ◌<◌, ◌≡◌, true, List, [], ◌∷◌, ◌++◌, All, All-replace, arith,
}
use ithaca_smart_contract_an.Program.Words.{i64_mod}
use ithaca_smart_contract_an.Program.State.{Pubkey, Ledger, FundMovementParam}
use ithaca_smart_contract_an.Program.Runtime.{Runtime}
use ithaca_smart_contract_an.Program.Tokens.{TokenProgram}
use ithaca_smart_contract_an.Fundlock.Accounts.{FundlockAccounts, claim}
use ithaca_smart_contract_an.Fundlock.Invariant.{
  IsValid, withdraw_fundlock-IsValid, release_fundlock-IsValid, deposit_fundlock-IsValid,
}
use ithaca_smart_contract_an.Fundlock.History as Vault
use ithaca_smart_contract_an.Fundlock.History.{
  World, claims, deposits, withdraws, releases, outside,
}
use ithaca_smart_contract_an.Ledger.Movements.Clients.{Client, Side, HasQueue, IsSound}
use ithaca_smart_contract_an.Ledger.Movements.Many.{AllMoved, IsMoved}
use ithaca_smart_contract_an.Exchange.Sides.{Hold, puts}

pub AllMoved-HasQueue :
    (side : Side) (l : Ledger) (ms : List FundMovementParam) (cs cs' : List Client)
    → AllMoved side l ms cs cs'
    → All (HasQueue side) cs'
AllMoved-HasQueue side l [] [] [] h = tt
AllMoved-HasQueue side l (m ∷ ms) (c ∷ cs) (c' ∷ cs') h =
    let moved : IsMoved side l m c c' = h.0 in (moved.queue, AllMoved-HasQueue side l ms cs cs' h.1)
AllMoved-HasQueue side l [] [] (c' ∷ cs') h = elim h [ ]
AllMoved-HasQueue side l [] (c ∷ cs) cs' h = elim h [ ]
AllMoved-HasQueue side l (m ∷ ms) [] cs' h = elim h [ ]
AllMoved-HasQueue side l (m ∷ ms) (c ∷ cs) [] h = elim h [ ]

pub balance-le :
    (a : FundlockAccounts)
    → a.client_balance.exists ≡ true
    → a.client_balance.inner.amount ≤ claim a
balance-le a e = ground arith

-- No balance is above the claims of the vault, and the queues are valid.
pub Hold-IsSound :
    (side : Side) (as' : List FundlockAccounts) (cs : List Client) (rest : List FundlockAccounts)
    → Hold side as' cs
    → claims as' < i64_mod
    → All IsValid (as' ++ rest)
    → All (IsSound side) cs
Hold-IsSound side [] [] rest h lt v = tt
Hold-IsSound side (a ∷ as') (c ∷ cs) rest h lt v =
    let queue : HasQueue side c = rw h.3 at (v.0 h.1) in
    (
      record { fits = rw (← h.2) (omega (arith, lt, balance-le a h.0)); queue = queue },
      Hold-IsSound side as' cs rest h.4 (omega (arith, lt)) v.1,
    )
Hold-IsSound side [] (c ∷ cs) rest h lt v = elim h [ ]
Hold-IsSound side (a ∷ as') [] rest h lt v = elim h [ ]

pub puts-IsValid :
    (side : Side) (as' : List FundlockAccounts) (cs : List Client) (rest : List FundlockAccounts)
    → All (HasQueue side) cs
    → All IsValid (as' ++ rest)
    → All IsValid (puts side as' cs ++ rest)
puts-IsValid side [] cs rest q v = v
puts-IsValid side (a ∷ as') [] rest q v = v
puts-IsValid side (a ∷ as') (c ∷ cs) rest q v = ((λ e. q.0), puts-IsValid side as' cs rest q.1 v.1)

module _ {ℓ} {S : Type ℓ} (tp : TokenProgram S) (rt : Runtime) (vault : Pubkey) where
  pub fundlock-IsValid :
      {w w' : World S}
      → Vault.Step tp rt vault w w'
      → All IsValid w.clients
      → All IsValid w'.clients
  fundlock-IsValid (deposits xs a a' ys n e h e') v =
      rw e'
        (All-replace IsValid xs a a' ys (rw e at v) (deposit_fundlock-IsValid tp rt a a' _ _ n h))
  fundlock-IsValid (withdraws xs a a' ys t n e h e' same) v =
      rw e' (All-replace IsValid xs a a' ys (rw e at v) (withdraw_fundlock-IsValid rt a a' t n h))
  fundlock-IsValid (releases xs a a' ys t i e h e') v =
      rw e'
        (All-replace IsValid xs a a' ys (rw e at v) (release_fundlock-IsValid tp rt a a' _ _ t i h))
  fundlock-IsValid (outside e up) v = rw e v
