-- ===== src/Exchange/Amounts.antt =====
-- The amounts of a vault's clients as u64, under the operations of the fundlock and the ledger's
-- updates.
use ithaca_smart_contract_an.Base.{
  ℕ, ◌≤◌, ◌<◌, ◌≡◌, true, List, [], ◌∷◌, ◌++◌, All, All-perm, arith, ap,
}
use ithaca_smart_contract_an.Program.Words.{u64_mod, IsU64}
use ithaca_smart_contract_an.Program.State.{Pubkey, Ledger, FundMovementParam, WithdrawalState}
use ithaca_smart_contract_an.Program.Runtime.{Runtime}
use ithaca_smart_contract_an.Program.Tokens.{TokenProgram}
use ithaca_smart_contract_an.Fundlock.Accounts.{FundlockAccounts, claim, queue_total}
use ithaca_smart_contract_an.Fundlock.Amounts.{IsMachine, Step-IsMachine}
use ithaca_smart_contract_an.Fundlock.History.{World, claims}
use ithaca_smart_contract_an.Ledger.Movements.Clients.{Client, Side}
use ithaca_smart_contract_an.Ledger.Movements.Many.{AllMoved, IsMoved}
use ithaca_smart_contract_an.Exchange.Sides.{Hold, put, puts, claims_append}
use ithaca_smart_contract_an.Exchange.Queues.{balance-le}
use ithaca_smart_contract_an.Exchange.History.{
  Settles, Settles-AllMoved, Reach, here, next, fundlock, settles, IsOrderly, Step-IsOrderly,
  settled_history-IsOrderly,
}

-- No entry is above the total of its queue.
All-below : (n : ℕ) (q : List WithdrawalState) → queue_total q < n → All (λ w. w.amount < n) q
All-below n [] h = tt
All-below n (w ∷ q) h = (omega (arith, h), All-below n q (omega (arith, h)))

active-le :
    (a : FundlockAccounts)
    → a.withdrawals.exists ≡ true
    → a.withdrawals.inner.active_withdrawals_amount ≤ claim a
active-le a e = ground arith

put-IsMachine :
    (side : Side) (l : Ledger) (m : FundMovementParam) (a : FundlockAccounts) (c c' : Client)
    (rest : List FundlockAccounts) (cs : List Client)
    → Hold side (a ∷ rest) (c ∷ cs)
    → IsMoved side l m c c'
    → claim (put side a c') < u64_mod
    → IsMachine a
    → IsMachine (put side a c')
put-IsMachine side l m a c c' rest cs h moved lt old =
    let balance = balance-le (put side a c') h.0 in
    let active = active-le (put side a c') h.1 in
    record {
      balance = omega (arith, balance, lt);
      collateral = rw (ap (λ b. b.collateral_amount) moved.same_balance, ← h.2) old.collateral;
      active = omega (arith, active, lt);
      entries = All-below u64_mod _ (omega (arith, active, lt, moved.queue.total));
    }

puts-IsMachine :
    (side : Side) (l : Ledger) (ms : List FundMovementParam) (as' : List FundlockAccounts)
    (cs cs' : List Client) (rest : List FundlockAccounts)
    → Hold side as' cs
    → AllMoved side l ms cs cs'
    → claims (puts side as' cs') < u64_mod
    → All IsMachine (as' ++ rest)
    → All IsMachine (puts side as' cs' ++ rest)
puts-IsMachine side l [] [] [] [] rest h moved lt old = old
puts-IsMachine side l (m ∷ ms) (a ∷ as') (c ∷ cs) (c' ∷ cs') rest h moved lt old = (
  put-IsMachine side l m a c c' as' cs h moved.0 (omega (arith, lt)) old.0,
  puts-IsMachine side l ms as' cs cs' rest h.4 moved.1 (omega (arith, lt)) old.1,
)
puts-IsMachine side l ms [] (c ∷ cs) cs' rest h moved lt old = elim h [ ]
puts-IsMachine side l ms (a ∷ as') [] cs' rest h moved lt old = elim h [ ]
puts-IsMachine side l [] [] [] (c' ∷ cs') rest h moved lt old = elim moved [ ]
puts-IsMachine side l (m ∷ ms) [] [] cs' rest h moved lt old = elim moved [ ]
puts-IsMachine side l [] (a ∷ as') (c ∷ cs) cs' rest h moved lt old = elim moved [ ]
puts-IsMachine side l (m ∷ ms) (a ∷ as') (c ∷ cs) [] rest h moved lt old = elim moved [ ]

module _ {ℓ} {S : Type ℓ} (tp : TokenProgram S) (rt : Runtime) (vault : Pubkey)
    (u64_amounts : (s : S) (k : Pubkey) → IsU64 (tp.amount s k)) where
  Settles-IsMachine :
      {side : Side} {w w' : World S}
      → Settles tp rt vault side w w'
      → IsOrderly tp rt vault w
      → IsOrderly tp rt vault w'
      → All IsMachine w.clients
      → All IsMachine w'.clients
  Settles-IsMachine {side} {w} {w'} u s s' m =
      let lt : claims (puts side u.chosen u.cs') < u64_mod = omega (
        arith,
        s'.solvent.covered,
        ap claims u.written,
        claims_append (puts side u.chosen u.cs') u.rest,
        u64_amounts w'.tokens vault,
      ) in
      rw u.written (
        puts-IsMachine side u.ctx.ledger.inner u.movements u.chosen u.cs u.cs' u.rest u.held
          (Settles-AllMoved tp rt vault u s.valid) lt
          (All-perm IsMachine w.clients (u.chosen ++ u.rest) u.members m))

  -- The amounts stay machine numbers through settlements too: where the token program's amounts are
  -- u64, from a vault that covers the claims of its clients, whose queues are valid and whose
  -- balances, collaterals, active amounts and queue entries are all below 2^64, every history of
  -- their operations, of transactions outside the program that take nothing out of the vault, and
  -- of updates of fund movements that do not raise the sum of the claims, with transfers whose
  -- tested amounts have the signs of the applied ones and while all claims together are below 2^63,
  -- leads to clients all of whose amounts are below 2^64.
  pub settled_history-IsMachine :
      {w w' : World S}
      → Reach tp rt vault w w'
      → IsOrderly tp rt vault w
      → All IsMachine w.clients
      → All IsMachine w'.clients
  settled_history-IsMachine here s m = m
  settled_history-IsMachine (next r (fundlock st)) s m =
      Step-IsMachine tp rt vault st (settled_history-IsMachine r s m)
  settled_history-IsMachine (next r (settles side u none)) s m =
      let before = settled_history-IsOrderly tp rt vault r s in
      Settles-IsMachine u before (Step-IsOrderly tp rt vault (settles side u none) before)
        (settled_history-IsMachine r s m)
