-- ===== src/Ledger/Movements/Aligned.antt =====
-- Where the transfers of an update stand, and which of them the source tests and applies.
use mathlib.Core.Path.{subst}
use mathlib.Core.List.{append_assoc}
use ithaca_smart_contract_an.Base.{
  ℕ, suc, ◌+◌, ◌*◌, ◌≡◌, ℤ, pos, List, [], ◌∷◌, ◌++◌, length, get_elem?, get_elem?-append,
  get_elem?-append_next, some, arith, ltb_ℤ, length-append,
}
use ithaca_smart_contract_an.Program.State.{
  Fundlock, Ledger, FundMovementParam, ClientBalance, Withdrawals,
}
use ithaca_smart_contract_an.Ledger.Settle.{
  client_balance, withdrawals, Transfer, settle, change_in_balance,
}
use ithaca_smart_contract_an.Ledger.Movements.Clients.{transfer_u, transfer_s, all_transfers}

-- The amount that the source tests for the underlying transfer of a movement has the sign of the
-- amount that it applies.
abbrev pub IsAligned : List Transfer → Type 0
IsAligned ts =
    (i : ℕ) (x y : Transfer)
    → get_elem? ts i ≡ some x
    → get_elem? ts (i * 2) ≡ some y
    → ltb_ℤ (pos 0) x.amount ≡ ltb_ℤ (pos 0) y.amount

module _ (lock : Fundlock) (t : ℤ) where
  change_in_balance-sign :
      (p q : ℤ) (x : Transfer) (b : ClientBalance) (w : Withdrawals)
      → ltb_ℤ (pos 0) p ≡ ltb_ℤ (pos 0) q
      → change_in_balance lock t p x b w ≡ change_in_balance lock t q x b w
  unfolding change_in_balance
  change_in_balance-sign p q x b w e = ground arith

  -- Where the two amounts have one sign, the test of the one is the test of the other.
  pub settle-sign :
      (ts : List Transfer) (tested index : ℕ) (x y : Transfer) (b : ClientBalance) (w : Withdrawals)
      → get_elem? ts tested ≡ some x
      → get_elem? ts index ≡ some y
      → ltb_ℤ (pos 0) x.amount ≡ ltb_ℤ (pos 0) y.amount
      → settle lock t ts tested index (client_balance b) (withdrawals w)
        ≡ settle lock t ts index index (client_balance b) (withdrawals w)
  unfolding settle
  settle-sign ts tested index x y b w ex ey e =
      ground (arith, change_in_balance-sign x.amount y.amount y b w e)

-- The transfers of the movements from the one at index `i` on.
abbrev pub Placed : Ledger → List Transfer → ℕ → List FundMovementParam → Type 0
Placed l ts i [] = Unit
Placed l ts i (m ∷ ms) =
    (get_elem? ts (i * 2) ≡ some (transfer_u l m))
    × (get_elem? ts (i * 2 + 1) ≡ some (transfer_s l m))
    × Placed l ts (suc i) ms

pub Placed-all_transfers :
    (l : Ledger) (ms : List FundMovementParam) (before : List Transfer) (i : ℕ)
    → length before ≡ i * 2
    → Placed l (before ++ all_transfers l ms) i ms
Placed-all_transfers l [] before i e = tt
Placed-all_transfers l (m ∷ ms) before i e =
    let two = transfer_u l m ∷ transfer_s l m ∷ [] in
    (
      rw (← e) (get_elem?-append before (transfer_u l m) (transfer_s l m ∷ all_transfers l ms)),
      rw (← e)
          (get_elem?-append_next before (transfer_u l m) (transfer_s l m) (all_transfers l ms)),
      subst (λ z. Placed l z (suc i) ms) (append_assoc before two (all_transfers l ms))
          (Placed-all_transfers l ms (before ++ two) (suc i)
            (omega (arith, length-append before two, e))),
    )
