-- ===== src/Ledger/Funding/Conservation.antt =====
-- What `fund_from_withdrawal` takes out of the queue, by an invariant of its loop.
use ithaca_smart_contract_an.Base.{
  All-erase_idx, ℕ, zero, suc, ◌+◌, ◌-◌, ◌≤◌, ◌<◌, ◌≡◌, ◌⊎◌, inl, inr, ℤ, Bool, true, false, none,
  some, length, get_elem?, erase_idx, length-erase_idx-le, All, Option-cases, Bool-cases, arith,
  sym, ◌∙◌, ==_iff, ◌==◌,
}
use ithaca_smart_contract_an.Program.Errors.{ok, >>=-eq-ok}
use ithaca_smart_contract_an.Program.Words.{add_u64, sub_u64}
use ithaca_smart_contract_an.Program.State.{WithdrawalState, Withdrawals}
use ithaca_smart_contract_an.Fundlock.Accounts.{queue_total}
use ithaca_smart_contract_an.Fundlock.Invariant.{IsPositive, IsQueue, queue_total-erase_idx}
use ithaca_smart_contract_an.Ledger.Funding.Thinned.{
  Thinned, Thinned-refl, Thinned-trans, Thinned-erase_idx, Thinned-set_amount, IsThinned,
}
use ithaca_smart_contract_an.Ledger.Funding.Lowering.{
  queue_total-set_amount, length-set_amount, All-set_amount,
}
use ithaca_smart_contract_an.Ledger.Funding.{
  Funding, set_amount, take_withdrawal, fund_round, fund_loop, fund_from_withdrawal,
}

-- The queue before the loop, and what holds after each round.
pub record IsFunding (amount : ℕ) (w : Withdrawals) (st : Funding) : Type 0 where
  pub taken : queue_total st.queue + st.funded_sum ≡ queue_total w.withdrawal_queue
  pub counted : st.active + st.funded_sum ≡ w.active_withdrawals_amount
  pub below : st.funded_sum ≤ amount
  pub shorter : length st.queue ≤ length w.withdrawal_queue
  pub positive : All IsPositive st.queue
  pub thinned : Thinned w.withdrawal_queue st.queue

module _ (trade_lock unix_timestamp : ℤ) (amount : ℕ) where
  -- The two ways in which a round takes from the entry `x`.
  record TakenWhole (x : WithdrawalState) (i : ℕ) (st st' : Funding) : Type 0 where
    fits : st.funded_sum + x.amount ≤ amount
    queue : st'.queue ≡ erase_idx st.queue i
    funded : st'.funded_sum ≡ st.funded_sum + x.amount
    active : st'.active + x.amount ≡ st.active

  record TakenPart (x : WithdrawalState) (i : ℕ) (st st' : Funding) : Type 0 where
    enough : amount < st.funded_sum + x.amount
    queue : st'.queue ≡ set_amount st.queue i (x.amount - (amount - st.funded_sum))
    funded : st'.funded_sum ≡ amount
    active : st'.active + amount ≡ st.active + st.funded_sum

  take_withdrawal-cases :
      (x : WithdrawalState) (i : ℕ) (st st' : Funding)
      → take_withdrawal trade_lock unix_timestamp amount x i st ≡ ok st'
      → TakenWhole x i st st' ⊎ TakenPart x i st st'
  unfolding take_withdrawal add_u64 sub_u64
  take_withdrawal-cases x i st st' h = ground arith

  take_withdrawal-IsFunding :
      (w : Withdrawals) (x : WithdrawalState) (i : ℕ) (st st' : Funding)
      → get_elem? st.queue i ≡ some x
      → IsFunding amount w st
      → TakenWhole x i st st' ⊎ TakenPart x i st st'
      → IsFunding amount w st'
  take_withdrawal-IsFunding w x i st st' e v (inl t) = record {
    taken = rw t.queue (omega (arith, queue_total-erase_idx st.queue i x e, v.taken, t.funded));
    counted = omega (arith, v.counted, t.active, t.funded);
    below = omega (arith, t.fits, t.funded);
    shorter = rw t.queue (omega (arith, length-erase_idx-le st.queue i, v.shorter));
    positive = rw t.queue (All-erase_idx IsPositive st.queue i v.positive);
    thinned = rw t.queue (Thinned-trans v.thinned (Thinned-erase_idx st.queue i));
  }
  take_withdrawal-IsFunding w x i st st' e v (inr t) =
      let rest : ℕ = x.amount - (amount - st.funded_sum) in
      record {
        taken = rw t.queue (
            omega (
              arith,
              queue_total-set_amount st.queue i rest x e,
              v.taken,
              v.below,
              t.funded,
              t.enough,
            ));
        counted = omega (arith, v.counted, t.active, t.funded);
        below = omega (arith, t.funded);
        shorter = rw t.queue (omega (arith, length-set_amount st.queue i rest, v.shorter));
        positive =
            rw t.queue
              (All-set_amount st.queue i rest v.positive (omega (arith, t.enough, v.below)));
        thinned =
            rw t.queue
              (Thinned-trans v.thinned (Thinned-set_amount st.queue i rest x e (omega arith)));
      }

  -- One round keeps the invariant, and ends the loop only when the amount is funded.
  abbrev Round : Withdrawals → Bool × Funding → Type 0
  Round w r = IsFunding amount w r.1 × (r.0 ≡ true → (r.1).funded_sum ≡ amount)

  fund_round-none :
      (i : ℕ) (st : Funding)
      → get_elem? st.queue i ≡ none
      → fund_round trade_lock unix_timestamp amount i st ≡ ok (false, st)
  unfolding fund_round
  fund_round-none i st e = ground arith

  fund_round-some :
      (i : ℕ) (st : Funding) (x : WithdrawalState) (r : Bool × Funding)
      → get_elem? st.queue i ≡ some x
      → fund_round trade_lock unix_timestamp amount i st ≡ ok r
      → (r ≡ (false, st))
        ⊎ ((take_withdrawal trade_lock unix_timestamp amount x i st ≡ ok r.1)
            × (r.0 ≡ ((r.1).funded_sum == amount)))
  unfolding fund_round
  fund_round-some i st x r e h = ground arith

  fund_round-Round :
      (w : Withdrawals) (i : ℕ) (st : Funding) (r : Bool × Funding)
      → fund_round trade_lock unix_timestamp amount i st ≡ ok r
      → IsFunding amount w st
      → Round w r
  fund_round-Round w i st r h v = elim (Option-cases (get_elem? st.queue i)) [
    | inl e ↦
        let same : ok r ≡ ok (false, st) = sym h ∙ fund_round-none i st e in ground (arith, same)
    | inr (x, e) ↦ elim (fund_round-some i st x r e h) [
      | inl same ↦ rw same (v, λ (p : false ≡ true). cc)
      | inr (t, d) ↦ (
        take_withdrawal-IsFunding w x i st r.1 e v (take_withdrawal-cases x i st r.1 t),
        λ p. (==_iff (r.1).funded_sum amount).0 (sym d ∙ p),
      )
    ]
  ]

  fund_loop-Round :
      (w : Withdrawals) (rounds i : ℕ) (st : Funding) (r : Bool × Funding)
      → fund_loop trade_lock unix_timestamp amount rounds i st ≡ ok r
      → IsFunding amount w st
      → Round w r
  unfolding fund_loop
  fund_loop-Round w zero i st r h v = ground arith
  fund_loop-Round w (suc rounds) i st r h v =
      let (r1, first, rest) = >>=-eq-ok (fund_round trade_lock unix_timestamp amount i st) _ h in
      let v1 = fund_round-Round w i st r1 first v in
      elim (Bool-cases r1.0) [
        | inl e ↦ ground (arith, rest, v1)
        | inr e ↦ fund_loop-Round w rounds (i + 1) r1.1 r (ground (arith, rest)) v1.0
      ]

  abbrev initial : Withdrawals → Funding
  initial w = record {
    queue = w.withdrawal_queue;
    active = w.active_withdrawals_amount;
    funded_sum = 0;
  }

  funded_case :
      (w w' : Withdrawals) (funded : Bool) (r : Bool × Funding)
      → r.0 ≡ true
      → (funded ≡ true)
        × (w'.withdrawal_queue ≡ (r.1).queue)
        × (w'.active_withdrawals_amount ≡ (r.1).active)
        × (w' ≡ record w {
          withdrawal_queue = w'.withdrawal_queue;
          active_withdrawals_amount = w'.active_withdrawals_amount;
        })
      → IsFunding amount w r.1
      → (r.1).funded_sum ≡ amount
      → IsQueue w.withdrawal_queue w.active_withdrawals_amount
      → (funded ≡ true)
        × (w'.active_withdrawals_amount + amount ≡ w.active_withdrawals_amount)
        × IsQueue w'.withdrawal_queue w'.active_withdrawals_amount
        × IsThinned w w'
  funded_case w w' funded r e (done, queue, active, same) v full q = (
    done,
    omega (arith, active, v.counted, full),
    rw (queue, active)
        (record {
          total = omega (arith, v.taken, v.counted, q.total);
          bounded = omega (arith, v.shorter, q.bounded);
          positive = v.positive;
        }),
    record { same = same; thinned = rw queue v.thinned },
  )

  -- Where the amount is funded, the queue and the active amount have fallen by exactly it, the
  -- queue is still a valid one, its entries those of before in their order, with their times, some
  -- lowered and some used up, and nothing else is changed; where it is not, the account is as it
  -- was.
  pub fund_from_withdrawal-conserves :
      (w w' : Withdrawals) (funded : Bool)
      → fund_from_withdrawal trade_lock unix_timestamp amount w ≡ ok (funded, w')
      → IsQueue w.withdrawal_queue w.active_withdrawals_amount
      → ((funded ≡ true)
          × (w'.active_withdrawals_amount + amount ≡ w.active_withdrawals_amount)
          × IsQueue w'.withdrawal_queue w'.active_withdrawals_amount
          × IsThinned w w')
        ⊎ ((funded ≡ false) × (w' ≡ w))
  unfolding fund_from_withdrawal
  fund_from_withdrawal-conserves w w' funded h q =
      let start : IsFunding amount w (initial w) = record {
        taken = omega arith;
        counted = omega arith;
        below = omega arith;
        shorter = omega arith;
        positive = q.positive;
        thinned = Thinned-refl w.withdrawal_queue;
      } in
      let (r, looped, done) = >>=-eq-ok _ _ h in
      let v = fund_loop-Round w (length w.withdrawal_queue) 0 (initial w) r looped start in
      elim (Bool-cases r.0) [
        | inl e ↦ inl (funded_case w w' funded r e (ground (arith, done)) (v.0) (v.1 e) q)
        | inr e ↦ inr (ground (arith, done))
      ]
