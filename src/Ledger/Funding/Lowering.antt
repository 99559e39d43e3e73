-- ===== src/Ledger/Funding/Lowering.antt =====
-- A queue of withdrawals in which the amount of one entry is lowered.
use ithaca_smart_contract_an.Base.{
  ℕ, zero, suc, ◌+◌, ◌<◌, ◌≡◌, List, [], ◌∷◌, some, length, get_elem?, All, arith, refl,
}
use ithaca_smart_contract_an.Program.State.{WithdrawalState}
use ithaca_smart_contract_an.Fundlock.Accounts.{queue_total}
use ithaca_smart_contract_an.Fundlock.Invariant.{IsPositive}
use ithaca_smart_contract_an.Ledger.Funding.{set_amount}

pub queue_total-set_amount :
    (q : List WithdrawalState) (i n : ℕ) (w : WithdrawalState)
    → get_elem? q i ≡ some w
    → queue_total (set_amount q i n) + w.amount ≡ queue_total q + n
queue_total-set_amount [] i n w h = cc
queue_total-set_amount (x ∷ q) zero n w h = ground arith
queue_total-set_amount (x ∷ q) (suc i) n w h = omega (arith, queue_total-set_amount q i n w h)

pub length-set_amount : (q : List WithdrawalState) (i n : ℕ) → length (set_amount q i n) ≡ length q
length-set_amount [] i n = refl
length-set_amount (x ∷ q) zero n = refl
length-set_amount (x ∷ q) (suc i) n = omega (arith, length-set_amount q i n)

pub All-set_amount :
    (q : List WithdrawalState) (i n : ℕ)
    → All IsPositive q
    → 0 < n
    → All IsPositive (set_amount q i n)
All-set_amount [] i n h p = tt
All-set_amount (x ∷ q) zero n h p = (p, h.1)
All-set_amount (x ∷ q) (suc i) n h p = (h.0, All-set_amount q i n h.1 p)
