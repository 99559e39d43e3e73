-- ===== src/Ledger/Movements/Covered.antt =====
-- An update whose balances cover its movements, against the update on paper.
use ithaca_smart_contract_an.Base.{
  ℕ, suc, ◌+◌, ◌*◌, ◌≤◌, ◌<◌, ◌≡◌, ◌⊎◌, ℤ, pos, ◌+ℤ◌, ◌-ℤ◌, ◌*ℤ◌, ◌<ℤ◌, pos_part, magnitude,
  is_zero, false, List, [], ◌∷◌, get_elem?, get_elem?-lt, get_elem?-some, some, arith, refl, ◌∙◌,
}
use ithaca_smart_contract_an.Program.Errors.{ok}
use ithaca_smart_contract_an.Program.Words.{
  i64_mod, neg_i64, mul_i64, checked_i64, abs_i64, add_i64, as_i64, as_u64,
}
use ithaca_smart_contract_an.Program.State.{
  Fundlock, Ledger, FundMovementParam, ClientBalance, Withdrawals,
}
use ithaca_smart_contract_an.Ledger.Settle.{
  client_balance, withdrawals, Transfer, settle, settle_underlying, settle_strike,
  update_balances_fundlock, change_in_balance,
}
use ithaca_smart_contract_an.Ledger.Movements.{
  UpdateFundMovements, handler, process_fund_movement, initialize_data, transfer_of,
  validate_and_count_amounts,
}
use ithaca_smart_contract_an.Ledger.Movements.Both.{HasBoth}
use ithaca_smart_contract_an.Ledger.Movements.Clients.{
  Client, datas, change_u, change_s, transfer_u, transfer_s, all_transfers, scaled,
}
use ithaca_smart_contract_an.Ledger.Movements.Aligned.{
  IsAligned, settle-sign, Placed, Placed-all_transfers,
}

-- A balance with its withdrawals that a transfer names, and that covers it.
pub record IsCovered (x : Transfer) (b : ClientBalance) (w : Withdrawals) : Type 0 where
  pub token : b.token ≡ x.token
  pub client : b.client ≡ x.client
  pub owner : w.client ≡ x.client
  pub balance_fits : b.amount < i64_mod
  pub change_fits : magnitude x.amount < i64_mod
  pub enough : (pos 0 <ℤ x.amount) ⊎ (magnitude x.amount ≤ b.amount)
  pub result_fits : b.amount + pos_part x.amount < i64_mod

-- The balance after the transfer.
abbrev pub moved : ClientBalance → ℤ → ClientBalance
moved b change = record b { amount = pos_part (pos b.amount +ℤ change) }

module _ (lock : Fundlock) (t : ℤ) where
  settle-covered :
      (ts : List Transfer) (index : ℕ) (x : Transfer) (b : ClientBalance) (w : Withdrawals)
      → get_elem? ts index ≡ some x
      → IsCovered x b w
      → settle lock t ts index index (client_balance b) (withdrawals w)
        ≡ ok (client_balance (moved b x.amount), withdrawals w)
  unfolding settle change_in_balance abs_i64 add_i64 checked_i64 as_i64 as_u64 ◌+ℤ◌
  settle-covered ts index x b w e c = ground arith

-- A movement with both amounts that the four accounts of a client cover.
pub record IsPayable (l : Ledger) (m : FundMovementParam) (c : Client) : Type 0 where
  pub both : HasBoth m.underlying_amount m.strike_amount
  pub amount_u : magnitude m.underlying_amount < i64_mod
  pub amount_s : magnitude m.strike_amount < i64_mod
  pub covered_u : IsCovered (transfer_u l m) c.balance_u c.withdrawals_u
  pub covered_s : IsCovered (transfer_s l m) c.balance_s c.withdrawals_s

abbrev pub AllPayable : Ledger → List FundMovementParam → List Client → Type 0
AllPayable l [] [] = Unit
AllPayable l (m ∷ ms) (c ∷ cs) = IsPayable l m c × AllPayable l ms cs
AllPayable l _ _ = ⊥

-- The update on paper: each balance is changed by its transfer.
abbrev pub paid : Ledger → FundMovementParam → Client → Client
paid l m c = record c {
  balance_u = moved c.balance_u (change_u l m);
  balance_s = moved c.balance_s (change_s l m);
}

abbrev pub all_paid : Ledger → List FundMovementParam → List Client → List Client
all_paid l (m ∷ ms) (c ∷ cs) = paid l m c ∷ all_paid l ms cs
all_paid l _ _ = []

module _ (l : Ledger) (lock : Fundlock) (t : ℤ) (ts : List Transfer) (aligned : IsAligned ts) where
  underlying-covered :
      (m : FundMovementParam) (i : ℕ) (c : Client)
      → get_elem? ts (i * 2) ≡ some (transfer_u l m)
      → IsCovered (transfer_u l m) c.balance_u c.withdrawals_u
      → settle lock t ts i (i * 2) (client_balance c.balance_u) (withdrawals c.withdrawals_u)
        ≡ ok (client_balance (moved c.balance_u (change_u l m)), withdrawals c.withdrawals_u)
  underlying-covered m i c e k =
      let (test, et) = get_elem?-some ts i (omega (arith, get_elem?-lt ts (i * 2) e)) in
      settle-sign lock t ts i (i * 2) test (transfer_u l m) c.balance_u c.withdrawals_u et e
        (aligned i test (transfer_u l m) et e)
      ∙ settle-covered lock t ts (i * 2) (transfer_u l m) c.balance_u c.withdrawals_u e k

  update_balances-covered :
      (ms : List FundMovementParam) (i : ℕ) (cs : List Client)
      → Placed l ts i ms
      → AllPayable l ms cs
      → update_balances_fundlock lock t ts i (datas cs) ≡ ok (datas (all_paid l ms cs))
  unfolding update_balances_fundlock settle_underlying settle_strike
  update_balances-covered [] i [] placed k = refl
  update_balances-covered (m ∷ ms) i (c ∷ cs) placed k =
      let p : IsPayable l m c = k.0 in
      rw
        (
          underlying-covered m i c placed.0 p.covered_u,
          settle-covered lock t ts (i * 2 + 1) (transfer_s l m) c.balance_s c.withdrawals_s placed.1
              p.covered_s,
          update_balances-covered ms (suc i) cs placed.2 k.1,
        )
        refl
  update_balances-covered [] i (c ∷ cs) placed k = elim k [ ]
  update_balances-covered (m ∷ ms) i [] placed k = elim k [ ]

module _ (l : Ledger) where
  neg_i64-ok : (a : ℤ) → magnitude a < i64_mod → neg_i64 a ≡ ok (pos 0 -ℤ a)
  unfolding neg_i64 checked_i64 ◌-ℤ◌
  neg_i64-ok a h = ground arith

  mul_i64-ok : (a b : ℤ) → magnitude (a *ℤ b) < i64_mod → mul_i64 a b ≡ ok (a *ℤ b)
  unfolding mul_i64 checked_i64
  mul_i64-ok a b h = ground arith

  transfer_of-ok :
      (client token : ℕ) (a multiplier : ℤ)
      → is_zero a ≡ false
      → magnitude a < i64_mod
      → magnitude (scaled a multiplier) < i64_mod
      → transfer_of client token a multiplier
        ≡ ok (record { client = client; token = token; amount = scaled a multiplier } ∷ [])
  unfolding transfer_of
  transfer_of-ok client token a multiplier nonzero fits scaled_fits =
      rw (nonzero, neg_i64-ok a fits, mul_i64-ok (pos 0 -ℤ a) multiplier scaled_fits) refl

  initialize_data-ok :
      (ms : List FundMovementParam) (cs : List Client)
      → AllPayable l ms cs
      → initialize_data l ms ≡ ok (all_transfers l ms)
  unfolding initialize_data
  initialize_data-ok [] [] k = refl
  initialize_data-ok (m ∷ ms) (c ∷ cs) k =
      let p : IsPayable l m c = k.0 in
      rw
        (
          transfer_of-ok m.client l.underlying_token m.underlying_amount l.underlying_multiplier
              p.both.0 p.amount_u p.covered_u.change_fits,
          transfer_of-ok m.client l.strike_token m.strike_amount l.strike_multiplier p.both.1
              p.amount_s p.covered_s.change_fits,
          initialize_data-ok ms cs k.1,
        )
        refl
  initialize_data-ok [] (c ∷ cs) k = elim k [ ]
  initialize_data-ok (m ∷ ms) [] k = elim k [ ]

  validate-ok :
      (n : ℕ) (ms : List FundMovementParam) (cs : List Client)
      → AllPayable l ms cs
      → (count : ℕ) × (validate_and_count_amounts n ms ≡ ok count)
  unfolding validate_and_count_amounts
  validate-ok n [] [] k = (n, refl)
  validate-ok n (m ∷ ms) (c ∷ cs) k =
      let p : IsPayable l m c = k.0 in
      let (count, e) = validate-ok (n + 1 + 1) ms cs k.1 in (count, rw (p.both.0, p.both.1) e)
  validate-ok n [] (c ∷ cs) k = elim k [ ]
  validate-ok n (m ∷ ms) [] k = elim k [ ]

-- An update of fund movements goes through whenever there is a movement, every movement has both
-- amounts, its accounts are the ones of its client and cover it, the tested amounts have the signs
-- of the applied ones, and i64 holds the amounts, the balances and the new balances: it changes
-- every balance by exactly its transfer, and nothing else.
pub handler-covered :
    (self : UpdateFundMovements) (t : ℤ) (m : FundMovementParam) (ms : List FundMovementParam)
    (cs : List Client)
    → AllPayable self.ledger.inner (m ∷ ms) cs
    → IsAligned (all_transfers self.ledger.inner (m ∷ ms))
    → handler self t (m ∷ ms) (datas cs) ≡ ok (datas (all_paid self.ledger.inner (m ∷ ms) cs))
unfolding handler process_fund_movement
handler-covered self t m ms cs k aligned =
    let l = self.ledger.inner in
    let (count, counted) = validate-ok l 0 (m ∷ ms) cs k in
    rw
      (
        counted,
        initialize_data-ok l (m ∷ ms) cs k,
        update_balances-covered l self.fundlock.inner t (all_transfers l (m ∷ ms)) aligned (m ∷ ms)
            0 cs (Placed-all_transfers l (m ∷ ms) [] 0 refl) k,
      )
      (ground arith)
