-- ===== src/Exchange/Times.antt =====
-- Queues whose entries stand in the order of their times.
use ithaca_smart_contract_an.Base.{
  ℕ, zero, suc, ◌≤◌, ◌≡◌, true, List, [], ◌∷◌, ◌++◌, All, All-append, ℤ, ◌≤ℤ◌, some, get_elem?,
  arith, refl,
}
use ithaca_smart_contract_an.Program.State.{WithdrawalState}
use ithaca_smart_contract_an.Fundlock.Accounts.{FundlockAccounts}
use ithaca_smart_contract_an.Fundlock.Effects.{queued}
use ithaca_smart_contract_an.Ledger.Funding.Thinned.{Thinned, nothing, keeps, drops, All-Thinned}

abbrev pub Since : ℤ → WithdrawalState → Type 0
Since t w = t ≤ℤ w.timestamp

abbrev pub Until : ℤ → WithdrawalState → Type 0
Until t w = w.timestamp ≤ℤ t

-- The entries stand in the order of their times.
abbrev pub InOrder : List WithdrawalState → Type 0
InOrder [] = Unit
InOrder (w ∷ q) = All (Since w.timestamp) q × InOrder q

-- And none is later than `now`.
pub record IsTimely (now : ℤ) (q : List WithdrawalState) : Type 0 where
  pub in_order : InOrder q
  pub past : All (Until now) q

All-later : (t t' : ℤ) (q : List WithdrawalState) → t ≤ℤ t' → All (Until t) q → All (Until t') q
All-later t t' [] le h = tt
All-later t t' (w ∷ q) le h = (omega (arith, le, h.0), All-later t t' q le h.1)

pub IsTimely-later : (t t' : ℤ) (q : List WithdrawalState) → t ≤ℤ t' → IsTimely t q → IsTimely t' q
IsTimely-later t t' q le h = record { in_order = h.in_order; past = All-later t t' q le h.past }

InOrder-append :
    (t : ℤ) (q : List WithdrawalState) (w : WithdrawalState)
    → InOrder q
    → All (Until t) q
    → w.timestamp ≡ t
    → InOrder (q ++ w ∷ [])
InOrder-append t [] w h past e = (tt, tt)
InOrder-append t (x ∷ q) w h past e =
    (All-append (Since x.timestamp) q w h.0 (rw e past.0), InOrder-append t q w h.1 past.1 e)

pub IsTimely-append :
    (t : ℤ) (q : List WithdrawalState) (n : ℕ) → IsTimely t q → IsTimely t (q ++ queued n t ∷ [])
IsTimely-append t q n h = record {
  in_order = InOrder-append t q (queued n t) h.in_order h.past refl;
  past = All-append (Until t) q (queued n t) h.past (omega arith);
}

InOrder-Thinned : {q q' : List WithdrawalState} → Thinned q q' → InOrder q → InOrder q'
InOrder-Thinned nothing h = h
InOrder-Thinned (drops t) h = InOrder-Thinned t h.1
InOrder-Thinned (keeps {x = x} {y = y} e le t) h =
    (rw e (All-Thinned (λ s. x.timestamp ≤ℤ s) t h.0), InOrder-Thinned t h.1)

pub IsTimely-Thinned :
    (now : ℤ) {q q' : List WithdrawalState} → Thinned q q' → IsTimely now q → IsTimely now q'
IsTimely-Thinned now t h = record {
  in_order = InOrder-Thinned t h.in_order;
  past = All-Thinned (λ s. s ≤ℤ now) t h.past;
}

-- Of two entries in order, the one in front is the earlier one.
pub earlier :
    (q : List WithdrawalState) (i j : ℕ) (v w : WithdrawalState)
    → InOrder q
    → i ≤ j
    → get_elem? q i ≡ some v
    → get_elem? q j ≡ some w
    → v.timestamp ≤ℤ w.timestamp
earlier (x ∷ q) zero zero v w h le e e' = ground (arith, e, e')
earlier (x ∷ q) zero (suc j) v w h le e e' =
    let later : x.timestamp ≤ℤ w.timestamp = at_index q j h.0 e' in ground (arith, e, later)
  where
    at_index :
        (q : List WithdrawalState) (j : ℕ)
        → All (Since x.timestamp) q
        → get_elem? q j ≡ some w
        → x.timestamp ≤ℤ w.timestamp
    at_index (y ∷ q) zero h e = ground (arith, e, h)
    at_index (y ∷ q) (suc j) h e = at_index q j h.1 e
    at_index [] j h e = cc
earlier (x ∷ q) (suc i) (suc j) v w h le e e' = earlier q i j v w h.1 (omega (arith, le)) e e'
earlier (x ∷ q) (suc i) zero v w h le e e' = absurd (omega (arith, le))
earlier [] i j v w h le e e' = cc

-- The accounts of a client at a time.
abbrev pub TimelyClient : ℤ → FundlockAccounts → Type 0
TimelyClient now a = a.withdrawals.exists ≡ true → IsTimely now a.withdrawals.inner.withdrawal_queue
