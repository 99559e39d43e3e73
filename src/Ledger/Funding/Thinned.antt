-- ===== src/Ledger/Funding/Thinned.antt =====
-- A queue of withdrawals from which entries were used up and lowered.
use ithaca_smart_contract_an.Base.{
  ℕ, zero, suc, ◌≤◌, ◌≡◌, ℤ, List, [], ◌∷◌, All, some, get_elem?, erase_idx, arith, refl, ◌∙◌,
}
use ithaca_smart_contract_an.Program.State.{WithdrawalState, Withdrawals}
use ithaca_smart_contract_an.Ledger.Funding.{set_amount}

-- The entries that are left stand in their order, each with its time and no more than its amount.
pub data Thinned : List WithdrawalState → List WithdrawalState → Type 0 where
  nothing : Thinned [] []
  keeps :
      {x y : WithdrawalState} {q q' : List WithdrawalState}
      → y.timestamp ≡ x.timestamp
      → y.amount ≤ x.amount
      → Thinned q q'
      → Thinned (x ∷ q) (y ∷ q')
  drops : {x : WithdrawalState} {q q' : List WithdrawalState} → Thinned q q' → Thinned (x ∷ q) q'

pub Thinned-refl : (q : List WithdrawalState) → Thinned q q
Thinned-refl [] = nothing
Thinned-refl (x ∷ q) = keeps refl (omega arith) (Thinned-refl q)

pub Thinned-trans : {p q r : List WithdrawalState} → Thinned p q → Thinned q r → Thinned p r
Thinned-trans nothing k = k
Thinned-trans (drops h) k = drops (Thinned-trans h k)
Thinned-trans (keeps e le h) (keeps e' le' k) =
    keeps (e' ∙ e) (omega (arith, le, le')) (Thinned-trans h k)
Thinned-trans (keeps e le h) (drops k) = drops (Thinned-trans h k)

pub Thinned-erase_idx : (q : List WithdrawalState) (i : ℕ) → Thinned q (erase_idx q i)
Thinned-erase_idx [] i = nothing
Thinned-erase_idx (x ∷ q) zero = drops (Thinned-refl q)
Thinned-erase_idx (x ∷ q) (suc i) = keeps refl (omega arith) (Thinned-erase_idx q i)

pub Thinned-set_amount :
    (q : List WithdrawalState) (i n : ℕ) (x : WithdrawalState)
    → get_elem? q i ≡ some x
    → n ≤ x.amount
    → Thinned q (set_amount q i n)
Thinned-set_amount [] i n x e le = nothing
Thinned-set_amount (y ∷ q) zero n x e le = keeps refl (ground (arith, e, le)) (Thinned-refl q)
Thinned-set_amount (y ∷ q) (suc i) n x e le =
    keeps refl (omega arith) (Thinned-set_amount q i n x e le)

-- What holds of the times of all entries goes on to hold.
pub All-Thinned {κ} :
    (P : ℤ → Type κ) {q q' : List WithdrawalState}
    → Thinned q q'
    → All (λ w. P w.timestamp) q
    → All (λ w. P w.timestamp) q'
All-Thinned P nothing h = h
All-Thinned P (drops t) h = All-Thinned P t h.1
All-Thinned P (keeps e le t) h = (rw e h.0, All-Thinned P t h.1)

-- The withdrawals before and after a funding: nothing else is changed.
pub record IsThinned (w w' : Withdrawals) : Type 0 where
  pub same : w' ≡ record w {
    withdrawal_queue = w'.withdrawal_queue;
    active_withdrawals_amount = w'.active_withdrawals_amount;
  }
  pub thinned : Thinned w.withdrawal_queue w'.withdrawal_queue

pub IsThinned-refl : (w w' : Withdrawals) → w' ≡ w → IsThinned w w'
IsThinned-refl w w' e = record {
  same = rw e refl;
  thinned = rw e (Thinned-refl w.withdrawal_queue);
}
