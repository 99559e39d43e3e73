-- ===== src/Ledger/Settle/Exact.antt =====
-- `update_balances_fundlock` for one balance whose tested amount is the one that is applied.
use ithaca_smart_contract_an.Base.{
  ℕ, ◌+◌, ◌-◌, ◌≤◌, ◌<◌, ◌≡◌, ◌⊎◌, inl, inr, ℤ, pos, negsuc, ◌+ℤ◌, ◌-ℤ◌, ◌<ℤ◌, ◌≤ℤ◌, magnitude,
  pos_part, neg_part, true, List, get_elem?, some, arith, int_laws, refl,
}
use ithaca_smart_contract_an.Program.Errors.{Result, ok, ◌>>=◌, >>=-eq-ok}
use ithaca_smart_contract_an.Program.Words.{
  sub_u64, add_i64, neg_i64, abs_i64, as_i64, as_u64, checked_i64, i64_mod, IsI64,
}
use ithaca_smart_contract_an.Program.State.{Fundlock, ClientBalance, Withdrawals}
use ithaca_smart_contract_an.Fundlock.Invariant.{IsQueue}
use ithaca_smart_contract_an.Ledger.Funding.{fund_from_withdrawal}
use ithaca_smart_contract_an.Ledger.Funding.Thinned.{IsThinned, IsThinned-refl}
use ithaca_smart_contract_an.Ledger.Funding.Conservation.{fund_from_withdrawal-conserves}
use ithaca_smart_contract_an.Ledger.Settle.{
  AccountData, client_balance, withdrawals, Transfer, change_in_balance, settle,
}

-- The claim of a balance and its withdrawals.
abbrev pub total : ClientBalance → Withdrawals → ℕ
total b w = b.amount + w.active_withdrawals_amount

module _ (lock : Fundlock) (unix_timestamp : ℤ) where
  -- The balance covers a transfer, or the withdrawals fund what it lacks.
  pub record Covered (t : Transfer) (c : ℤ) (w w' : Withdrawals) : Type 0 where
    pub change : c ≡ t.amount
    pub untouched : w' ≡ w

  pub record Funded (t : Transfer) (b : ClientBalance) (c : ℤ) (w w' : Withdrawals) : Type 0 where
    pub short : b.amount < magnitude t.amount
    pub emptied : c ≡ pos 0 -ℤ as_i64 b.amount
    pub funding :
        fund_from_withdrawal lock.trade_lock unix_timestamp (magnitude t.amount - b.amount) w
        ≡ ok (true, w')

  pub change_in_balance-cases :
      (tested : ℤ) (t : Transfer) (b : ClientBalance) (w w' : Withdrawals) (c : ℤ)
      → change_in_balance lock unix_timestamp tested t b w ≡ ok (c, w')
      → (((pos 0 <ℤ tested) ⊎ (magnitude t.amount ≤ b.amount)) × Covered t c w w')
        ⊎ ((tested ≤ℤ pos 0) × Funded t b c w w')
  unfolding change_in_balance abs_i64 neg_i64 checked_i64 sub_u64
  change_in_balance-cases tested t b w w' c h = ground arith

  abbrev finish : ClientBalance → Withdrawals → ℤ → Result (AccountData × AccountData)
  finish b w amount = ok (client_balance (record b { amount = as_u64 amount }), withdrawals w)

  -- What a settlement does once its accounts are found in order.
  abbrev apply_change :
      ℤ → Transfer → ClientBalance → Withdrawals → Result (AccountData × AccountData)
  apply_change tested t b w = change_in_balance lock unix_timestamp tested t b w >>= λ x.
      add_i64 (as_i64 b.amount) x.0 >>= finish b x.1

  settle-apply_change :
      (transfers : List Transfer) (tested index : ℕ) (test t : Transfer) (b : ClientBalance)
      (w : Withdrawals) (r : AccountData × AccountData)
      → get_elem? transfers tested ≡ some test
      → get_elem? transfers index ≡ some t
      → settle lock unix_timestamp transfers tested index (client_balance b) (withdrawals w) ≡ ok r
      → apply_change test.amount t b w ≡ ok r
  unfolding settle
  settle-apply_change transfers tested index test t b w r et e h = ground arith

  -- The new balance and withdrawals, by the change.
  abbrev after_change : ClientBalance → ℤ × Withdrawals → AccountData × AccountData
  after_change b x =
      (client_balance (record b { amount = as_u64 (as_i64 b.amount +ℤ x.0) }), withdrawals x.1)

  after_add :
      (b : ClientBalance) (x : ℤ × Withdrawals) (r : AccountData × AccountData)
      → (add_i64 (as_i64 b.amount) x.0 >>= finish b x.1) ≡ ok r
      → (r ≡ after_change b x) × IsI64 (as_i64 b.amount +ℤ x.0)
  unfolding add_i64 checked_i64
  after_add b x r h = ground arith

  -- A settlement that succeeds, taken apart.
  pub settle-steps :
      (transfers : List Transfer) (tested index : ℕ) (test t : Transfer) (b : ClientBalance)
      (w : Withdrawals) (r : AccountData × AccountData)
      → get_elem? transfers tested ≡ some test
      → get_elem? transfers index ≡ some t
      → settle lock unix_timestamp transfers tested index (client_balance b) (withdrawals w) ≡ ok r
      → (x : ℤ × Withdrawals) × (change_in_balance lock unix_timestamp test.amount t b w ≡ ok x)
        × (r ≡ after_change b x)
        × IsI64 (as_i64 b.amount +ℤ x.0)
  settle-steps transfers tested index test t b w r et e h =
      let (x, changed, rest) =
        >>=-eq-ok (change_in_balance lock unix_timestamp test.amount t b w) _
          (settle-apply_change transfers tested index test t b w r et e h) in
      let done = after_add b x r rest in (x, changed, done.0, done.1)

  new_amount :
      (n : ℕ) (c : ℤ)
      → n < i64_mod
      → pos 0 ≤ℤ pos n +ℤ c
      → (pos_part (pos n +ℤ c) ≡ as_u64 (as_i64 n +ℤ c)) × (neg_part (pos n +ℤ c) ≡ 0)
  unfolding as_i64 as_u64 ◌+ℤ◌
  new_amount n c lt nonneg = ground arith

  covered_nonneg :
      (t : Transfer) (b : ClientBalance)
      → (pos 0 <ℤ t.amount) ⊎ (magnitude t.amount ≤ b.amount)
      → pos 0 ≤ℤ pos b.amount +ℤ t.amount
  covered_nonneg t b (inl h) = omega int_laws
  covered_nonneg t b (inr h) = omega int_laws

  as_i64-lt : (n : ℕ) → n < i64_mod → as_i64 n ≡ pos n
  unfolding as_i64
  as_i64-lt n h = ground arith

  parts_disjoint : (a : ℤ) → (pos_part a ≡ 0) ⊎ (neg_part a ≡ 0)
  parts_disjoint (pos n) = inr refl
  parts_disjoint (negsuc n) = inl refl

  add_neg_self : (n : ℕ) → pos n +ℤ (pos 0 -ℤ pos n) ≡ pos 0
  add_neg_self n = omega int_laws

  settled_total :
      (t : Transfer) (b : ClientBalance) (w w' : Withdrawals) (c : ℤ)
      → b.amount < i64_mod
      → IsQueue w.withdrawal_queue w.active_withdrawals_amount
      → (((pos 0 <ℤ t.amount) ⊎ (magnitude t.amount ≤ b.amount)) × Covered t c w w')
        ⊎ ((t.amount ≤ℤ pos 0) × Funded t b c w w')
      → (pos (as_u64 (as_i64 b.amount +ℤ c) + w'.active_withdrawals_amount)
          ≡ pos (total b w) +ℤ t.amount)
        × IsQueue w'.withdrawal_queue w'.active_withdrawals_amount
        × IsThinned w w'
  unfolding as_u64
  settled_total t b w w' c lt q (inl (cover, k)) = (
    rw (k.change, k.untouched)
        (let n = new_amount b.amount t.amount lt (covered_nonneg t b cover) in
          omega (int_laws, n.0, n.1)),
    rw k.untouched q,
    IsThinned-refl w w' k.untouched,
  )
  settled_total t b w w' c lt q (inr (neg, k)) =
      elim (fund_from_withdrawal-conserves lock.trade_lock unix_timestamp
        (magnitude t.amount - b.amount) w w' true k.funding q) [
          | inl f ↦ (
            rw (k.emptied, as_i64-lt b.amount lt, add_neg_self b.amount, as_u64)
                (omega (int_laws, f.1, k.short, neg, parts_disjoint t.amount)),
            f.2,
            f.3,
          )
          | inr f ↦ absurd (cc (f.0))
        ]

  -- A settlement that succeeds and tests the amount it applies writes a balance that differs in its
  -- amount at most. If i64 held the old amount and the queue was valid, the claim of the client has
  -- changed by exactly the transfer's amount.
  pub settle-moves :
      (transfers : List Transfer) (index : ℕ) (t : Transfer) (b : ClientBalance) (w : Withdrawals)
      (r : AccountData × AccountData)
      → get_elem? transfers index ≡ some t
      → settle lock unix_timestamp transfers index index (client_balance b) (withdrawals w) ≡ ok r
      → (b' : ClientBalance) × (w' : Withdrawals) × (r ≡ (client_balance b', withdrawals w'))
        × (b' ≡ record b { amount = b'.amount })
        × (b.amount < i64_mod
            → IsQueue w.withdrawal_queue w.active_withdrawals_amount
            → (pos (total b' w') ≡ pos (total b w) +ℤ t.amount)
              × IsQueue w'.withdrawal_queue w'.active_withdrawals_amount
              × IsThinned w w')
  settle-moves transfers index t b w r e h =
      let (x, changed, done, fits) = settle-steps transfers index index t t b w r e e h in
      (
        record b { amount = as_u64 (as_i64 b.amount +ℤ x.0) },
        x.1,
        done,
        refl,
        λ lt q.
            settled_total t b w x.1 x.0 lt q
              (change_in_balance-cases t.amount t b w x.1 x.0 changed),
      )

  -- From a balance that i64 holds and a valid queue, a settlement that succeeds and tests the
  -- amount it applies changes the claim of the client, the balance and the active withdrawals
  -- together, by exactly the transfer's amount, keeps the queue valid, its entries those of before
  -- in their order, some lowered and some used up, and changes nothing else of the accounts.
  pub settle-exact :
      (transfers : List Transfer) (index : ℕ) (t : Transfer) (b : ClientBalance) (w : Withdrawals)
      (r : AccountData × AccountData)
      → get_elem? transfers index ≡ some t
      → b.amount < i64_mod
      → IsQueue w.withdrawal_queue w.active_withdrawals_amount
      → settle lock unix_timestamp transfers index index (client_balance b) (withdrawals w) ≡ ok r
      → (b' : ClientBalance) × (w' : Withdrawals) × (r ≡ (client_balance b', withdrawals w'))
        × (b' ≡ record b { amount = b'.amount })
        × (pos (total b' w') ≡ pos (total b w) +ℤ t.amount)
        × IsQueue w'.withdrawal_queue w'.active_withdrawals_amount
        × IsThinned w w'
  settle-exact transfers index t b w r e lt q h =
      let (b', w', done, same, change) = settle-moves transfers index t b w r e h in
      let (changed, queue, owner) = change lt q in (b', w', done, same, changed, queue, owner)
