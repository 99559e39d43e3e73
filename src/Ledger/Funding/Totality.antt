-- ===== src/Ledger/Funding/Totality.antt =====
-- The return of `fund_from_withdrawal`: the arithmetic of its loop, round by round.
use ithaca_smart_contract_an.Base.{
  ℕ, zero, suc, ◌+◌, ◌-◌, ◌≤◌, ◌≡◌, inl, inr, ℤ, ◌+ℤ◌, ltb_ℤ, Bool, true, false, List, [], ◌∷◌,
  some, length, get_elem?, erase_idx, All, Option-cases, Bool-cases, arith, refl, leb, leb→le, ◌==◌,
}
use ithaca_smart_contract_an.Program.Errors.{ok}
use ithaca_smart_contract_an.Program.Words.{add_u64, sub_u64, add_i64, IsI64, IsU64, checked_i64_ok}
use ithaca_smart_contract_an.Program.State.{WithdrawalState, Withdrawals}
use ithaca_smart_contract_an.Fundlock.Accounts.{queue_total}
use ithaca_smart_contract_an.Fundlock.Invariant.{IsQueue, queue_total-erase_idx}
use ithaca_smart_contract_an.Ledger.Funding.{
  Funding, set_amount, take_withdrawal, fund_round, fund_loop, fund_from_withdrawal,
}
use ithaca_smart_contract_an.Ledger.Funding.Lowering.{queue_total-set_amount}

module _ (trade_lock unix_timestamp : ℤ) (amount : ℕ) where
  -- The end of the trade lock of an entry is a time that i64 holds.
  abbrev pub LockFits : WithdrawalState → Type 0
  LockFits x = IsI64 (x.timestamp +ℤ trade_lock)

  LockFits-erase_idx :
      (q : List WithdrawalState) (i : ℕ) → All LockFits q → All LockFits (erase_idx q i)
  LockFits-erase_idx [] i h = tt
  LockFits-erase_idx (x ∷ q) zero h = h.1
  LockFits-erase_idx (x ∷ q) (suc i) h = (h.0, LockFits-erase_idx q i h.1)

  LockFits-set_amount :
      (q : List WithdrawalState) (i n : ℕ) → All LockFits q → All LockFits (set_amount q i n)
  LockFits-set_amount [] i n h = tt
  LockFits-set_amount (x ∷ q) zero n h = h
  LockFits-set_amount (x ∷ q) (suc i) n h = (h.0, LockFits-set_amount q i n h.1)

  LockFits-get :
      (q : List WithdrawalState) (i : ℕ) (x : WithdrawalState)
      → All LockFits q
      → get_elem? q i ≡ some x
      → LockFits x
  LockFits-get [] i x h e = cc
  LockFits-get (y ∷ q) zero x h e = ground arith
  LockFits-get (y ∷ q) (suc i) x h e = LockFits-get q i x h.1 e

  -- What the loop needs to go on.
  record Runs (st : Funding) : Type 0 where
    matched : queue_total st.queue ≡ st.active
    below : st.funded_sum ≤ amount
    locks : All LockFits st.queue

  abbrev whole : ℕ → WithdrawalState → Funding → Funding
  whole i x st = record {
    queue = erase_idx st.queue i;
    active = st.active - x.amount;
    funded_sum = st.funded_sum + x.amount;
  }

  abbrev part : ℕ → WithdrawalState → Funding → Funding
  part i x st = record {
    queue = set_amount st.queue i (x.amount - (amount - st.funded_sum));
    active = st.active - (amount - st.funded_sum);
    funded_sum = st.funded_sum + (amount - st.funded_sum);
  }

  take_whole :
      (x : WithdrawalState) (i : ℕ) (st : Funding)
      → get_elem? st.queue i ≡ some x
      → IsU64 amount
      → Runs st
      → leb x.amount (amount - st.funded_sum) ≡ true
      → take_withdrawal trade_lock unix_timestamp amount x i st ≡ ok (whole i x st)
  unfolding take_withdrawal add_u64 sub_u64
  take_whole x i st e u v t =
      ground (arith, queue_total-erase_idx st.queue i x e, v.matched, v.below)

  take_part :
      (x : WithdrawalState) (i : ℕ) (st : Funding)
      → get_elem? st.queue i ≡ some x
      → IsU64 amount
      → Runs st
      → leb x.amount (amount - st.funded_sum) ≡ false
      → take_withdrawal trade_lock unix_timestamp amount x i st ≡ ok (part i x st)
  unfolding take_withdrawal add_u64 sub_u64
  take_part x i st e u v t =
      ground (arith, queue_total-erase_idx st.queue i x e, v.matched, v.below)

  take_withdrawal-Runs :
      (x : WithdrawalState) (i : ℕ) (st : Funding)
      → get_elem? st.queue i ≡ some x
      → IsU64 amount
      → Runs st
      → (st' : Funding) × (take_withdrawal trade_lock unix_timestamp amount x i st ≡ ok st')
        × Runs st'
  take_withdrawal-Runs x i st e u v =
      let erased = queue_total-erase_idx st.queue i x e in
      let rest : ℕ = x.amount - (amount - st.funded_sum) in
      let lowered = queue_total-set_amount st.queue i rest x e in
      elim (Bool-cases (leb x.amount (amount - st.funded_sum))) [
        | inl t ↦ (
          whole i x st,
          take_whole x i st e u v t,
          record {
            matched = omega (arith, erased, v.matched);
            below = omega (arith, leb→le _ _ t, v.below);
            locks = LockFits-erase_idx st.queue i v.locks;
          },
        )
        | inr t ↦ (
          part i x st,
          take_part x i st e u v t,
          record {
            matched = ground (arith, lowered, v.matched, v.below, erased);
            below = omega (arith, v.below);
            locks = LockFits-set_amount st.queue i rest v.locks;
          },
        )
      ]

  fund_round-Runs :
      (i : ℕ) (st : Funding)
      → IsU64 amount
      → Runs st
      → (r : Bool × Funding) × (fund_round trade_lock unix_timestamp amount i st ≡ ok r) × Runs r.1
  unfolding fund_round add_i64
  fund_round-Runs i st u v = elim (Option-cases (get_elem? st.queue i)) [
    | inl e ↦ ((false, st), rw (e, fund_round) refl, v)
    | inr (x, e) ↦
        let fits =
          checked_i64_ok (x.timestamp +ℤ trade_lock) (LockFits-get st.queue i x v.locks e) in
        elim (Bool-cases (ltb_ℤ unix_timestamp (x.timestamp +ℤ trade_lock))) [
          | inl t ↦
              let (st', took, v') = take_withdrawal-Runs x i st e u v in
              ((st'.funded_sum == amount, st'), rw (e, fits, t, took, fund_round) refl, v')
          | inr t ↦ ((false, st), rw (e, fits, t, fund_round) refl, v)
        ]
  ]

  -- After a first round that returns, the loop returns if the rest of it does.
  fund_loop-suc :
      (rounds i : ℕ) (st st' : Funding) (done : Bool)
      → fund_round trade_lock unix_timestamp amount i st ≡ ok (done, st')
      → (r : Bool × Funding) × (fund_loop trade_lock unix_timestamp amount rounds (i + 1) st'
          ≡ ok r)
      → (r : Bool × Funding) × (fund_loop trade_lock unix_timestamp amount (suc rounds) i st ≡ ok r)
  unfolding fund_loop
  fund_loop-suc rounds i st st' true round rest = ((true, st'), rw round refl)
  fund_loop-suc rounds i st st' false round (r, rest) = (r, rw round rest)

  fund_loop-total :
      (rounds i : ℕ) (st : Funding)
      → IsU64 amount
      → Runs st
      → (r : Bool × Funding) × (fund_loop trade_lock unix_timestamp amount rounds i st ≡ ok r)
  unfolding fund_loop
  fund_loop-total zero i st u v = ((false, st), refl)
  fund_loop-total (suc rounds) i st u v =
      let (r, round, v') = fund_round-Runs i st u v in
      fund_loop-suc rounds i st r.1 r.0 round (fund_loop-total rounds (i + 1) r.1 u v')

  -- On a valid queue whose trade locks end at times that i64 holds, the funding of any u64 amount
  -- returns: no operation of the loop overflows.
  pub fund_from_withdrawal-total :
      (w : Withdrawals)
      → IsQueue w.withdrawal_queue w.active_withdrawals_amount
      → All LockFits w.withdrawal_queue
      → IsU64 amount
      → (r : Bool × Withdrawals) × (fund_from_withdrawal trade_lock unix_timestamp amount w ≡ ok r)
  unfolding fund_from_withdrawal
  fund_from_withdrawal-total w q locks u =
      let start : Funding = record {
        queue = w.withdrawal_queue;
        active = w.active_withdrawals_amount;
        funded_sum = 0;
      } in
      let (r, loop) =
        fund_loop-total (length w.withdrawal_queue) 0 start u
          (record { matched = q.total; below = omega arith; locks = locks }) in
      elim (Bool-cases r.0) [
        | inl t ↦ (
          (
            true,
            record w { withdrawal_queue = (r.1).queue; active_withdrawals_amount = (r.1).active },
          ),
          rw (loop, t) refl,
        )
        | inr t ↦ ((false, w), rw (loop, t) refl)
      ]
