-- ===== src/Ledger/Settle/Misindexed.antt =====
-- `update_balances_fundlock` for an underlying balance: the test reads `amounts[i]`, the transfer
-- is `amounts[i * 2]`.
use ithaca_smart_contract_an.Base.{
  ℕ, ◌-◌, ◌*◌, ◌≤◌, ◌<◌, ◌≡◌, ℤ, pos, negsuc, ◌+ℤ◌, ◌-ℤ◌, ◌<ℤ◌, ◌≤ℤ◌, magnitude, List, get_elem?,
  some, ◌⊎◌, inl, inr, arith,
}
use ithaca_smart_contract_an.Program.Errors.{ok, >>=-eq-ok}
use ithaca_smart_contract_an.Program.Words.{add_i64, as_i64, as_u64, checked_i64, i64_mod, u64_mod}
use ithaca_smart_contract_an.Program.State.{Fundlock, ClientBalance, Withdrawals}
use ithaca_smart_contract_an.Ledger.Settle.{
  client_balance, withdrawals, Transfer, MovementData, change_in_balance, settle, settle_underlying,
}
use ithaca_smart_contract_an.Ledger.Settle.Exact.{
  change_in_balance-cases, settle-steps, Covered, Funded,
}

module _ (lock : Fundlock) (unix_timestamp : ℤ) where
  -- The accounts of the transfer `t`: the ones that the checks ask for.
  pub record Matches (t : Transfer) (b : ClientBalance) (w : Withdrawals) : Type 0 where
    pub token : b.token ≡ t.token
    pub client : b.client ≡ t.client
    pub owner : w.client ≡ t.client

  change-wraps :
      (tested : ℤ) (t : Transfer) (b : ClientBalance) (w : Withdrawals)
      → pos 0 <ℤ tested
      → change_in_balance lock unix_timestamp tested t b w ≡ ok (t.amount, w)
  unfolding change_in_balance
  change-wraps tested t b w h = ground arith

  amount-wraps :
      (n : ℕ) (a : ℤ)
      → a <ℤ pos 0
      → n < magnitude a
      → magnitude a < i64_mod
      → add_i64 (as_i64 n) a ≡ ok (negsuc (magnitude a - n - 1))
  unfolding add_i64 as_i64 checked_i64 ◌+ℤ◌
  amount-wraps n a neg short fits = ground arith

  settle-wraps :
      (transfers : List Transfer) (tested index : ℕ) (test t : Transfer) (b : ClientBalance)
      (w : Withdrawals)
      → get_elem? transfers tested ≡ some test
      → get_elem? transfers index ≡ some t
      → Matches t b w
      → pos 0 <ℤ test.amount
      → t.amount <ℤ pos 0
      → b.amount < magnitude t.amount
      → magnitude t.amount < i64_mod
      → settle lock unix_timestamp transfers tested index (client_balance b) (withdrawals w)
        ≡ ok (
          client_balance (record b { amount = u64_mod - (magnitude t.amount - b.amount) }),
          withdrawals w,
        )
  unfolding settle as_u64
  settle-wraps transfers tested index test t b w et e m up down short fits =
      let changed = change-wraps test.amount t b w up in
      let added = amount-wraps b.amount t.amount down short fits in ground arith

  -- At a movement `i` where the amount at `i` is positive and the underlying transfer, at `i * 2`,
  -- takes more than the balance holds, the settlement succeeds, leaves the withdrawals alone, and
  -- sets the balance to 2^64 less what was missing.
  pub settle_underlying-wraps :
      (transfers : List Transfer) (i : ℕ) (test t : Transfer) (b : ClientBalance) (w : Withdrawals)
      (d : MovementData)
      → get_elem? transfers i ≡ some test
      → get_elem? transfers (i * 2) ≡ some t
      → d.underlying_balance ≡ client_balance b
      → d.underlying_withdrawals ≡ withdrawals w
      → Matches t b w
      → pos 0 <ℤ test.amount
      → t.amount <ℤ pos 0
      → b.amount < magnitude t.amount
      → magnitude t.amount < i64_mod
      → settle_underlying lock unix_timestamp transfers i d
        ≡ ok (record d {
          underlying_balance =
              client_balance (record b { amount = u64_mod - (magnitude t.amount - b.amount) });
        })
  unfolding settle_underlying
  settle_underlying-wraps transfers i test t b w d et e eb ew m up down short fits =
      rw (eb, ew, settle-wraps transfers i (i * 2) test t b w et e m up down short fits)
        (ground arith)

  emptied_amount : (n : ℕ) → n < i64_mod → as_u64 (as_i64 n +ℤ (pos 0 -ℤ as_i64 n)) ≡ 0
  unfolding as_i64 as_u64 ◌+ℤ◌ ◌-ℤ◌
  emptied_amount n h = ground arith

  emptied :
      (tested : ℤ) (t : Transfer) (b : ClientBalance) (c : ℤ) (w w' : Withdrawals)
      → b.amount < i64_mod
      → tested ≤ℤ pos 0
      → pos b.amount <ℤ t.amount
      → (((pos 0 <ℤ tested) ⊎ (magnitude t.amount ≤ b.amount))
          × Covered lock unix_timestamp t c w w')
        ⊎ ((tested ≤ℤ pos 0) × Funded lock unix_timestamp t b c w w')
      → as_u64 (as_i64 b.amount +ℤ c) ≡ 0
  emptied tested t b c w w' lt down up (inl (cover, k)) = absurd (omega (arith, cover))
  emptied tested t b c w w' lt down up (inr (neg, k)) = rw k.emptied (emptied_amount b.amount lt)

  -- At a movement `i` where the amount at `i` is not positive and the underlying transfer, at
  -- `i * 2`, pays in more than the balance holds, a settlement that succeeds empties the balance
  -- that it should have raised.
  pub settle_underlying-debits :
      (transfers : List Transfer) (i : ℕ) (test t : Transfer) (b : ClientBalance) (w : Withdrawals)
      (d d' : MovementData)
      → get_elem? transfers i ≡ some test
      → get_elem? transfers (i * 2) ≡ some t
      → d.underlying_balance ≡ client_balance b
      → d.underlying_withdrawals ≡ withdrawals w
      → b.amount < i64_mod
      → test.amount ≤ℤ pos 0
      → pos b.amount <ℤ t.amount
      → settle_underlying lock unix_timestamp transfers i d ≡ ok d'
      → d'.underlying_balance ≡ client_balance (record b { amount = 0 })
  unfolding settle_underlying
  settle_underlying-debits transfers i test t b w d d' et e eb ew lt down up h =
      let (r, settled, done) =
        >>=-eq-ok
          (settle lock unix_timestamp transfers i (i * 2) d.underlying_balance
            d.underlying_withdrawals)
          _ h in
      let settled' : settle lock unix_timestamp transfers i (i * 2) (client_balance b)
            (withdrawals w)
          ≡ ok r =
        rw (eb, ew) at settled in
      let (x, changed, result, fits) =
        settle-steps lock unix_timestamp transfers i (i * 2) test t b w r et e settled' in
      let zero_now =
        emptied test.amount t b x.0 w x.1 lt down up
          (change_in_balance-cases lock unix_timestamp test.amount t b w x.1 x.0 changed) in
      ground (arith, done, result, zero_now)
