-- ===== src/Ledger/Movements/Rounds.antt =====
-- One round of `update_balances_fundlock`, taken apart.
use mathlib.Core.Path.{subst}
use ithaca_smart_contract_an.Base.{ℕ, suc, ◌+◌, ◌*◌, ◌≡◌, ℤ, List, ◌∷◌, arith, sym}
use ithaca_smart_contract_an.Program.Errors.{ok, ◌>>=◌, >>=-eq-ok}
use ithaca_smart_contract_an.Program.State.{Fundlock}
use ithaca_smart_contract_an.Ledger.Settle.{
  AccountData, client_balance, withdrawals, Transfer, MovementData, settle, settle_underlying,
  settle_strike, update_balances_fundlock,
}
use ithaca_smart_contract_an.Ledger.Movements.Clients.{Client, to_data}

module _ (lock : Fundlock) (t : ℤ) where
  -- One round of the settlement, as its two halves.
  pub round-steps :
      (ts : List Transfer) (i : ℕ) (c : Client) (ds r : List MovementData)
      → update_balances_fundlock lock t ts i (to_data c ∷ ds) ≡ ok r
      → (x y : AccountData × AccountData) × (r' : List MovementData) × (settle lock t ts i
            (i * 2)
            (client_balance c.balance_u)
            (withdrawals c.withdrawals_u)
          ≡ ok x)
        × (settle lock t ts
              (i * 2 + 1)
              (i * 2 + 1)
              (client_balance c.balance_s)
              (withdrawals c.withdrawals_s)
            ≡ ok y)
        × (update_balances_fundlock lock t ts (suc i) ds ≡ ok r')
        × (r
            ≡ record {
              underlying_balance = x.0;
              strike_balance = y.0;
              underlying_withdrawals = x.1;
              strike_withdrawals = y.1;
            }
              ∷ r')
  unfolding update_balances_fundlock settle_underlying settle_strike
  round-steps ts i c ds r h =
      let d = to_data c in
      let (d1, h1, k1) = >>=-eq-ok (settle_underlying lock t ts i d) _ h in
      let (x, hx, ex) =
        >>=-eq-ok
          (settle lock t ts i (i * 2) (client_balance c.balance_u) (withdrawals c.withdrawals_u)) _
          h1 in
      let after = record d { underlying_balance = x.0; underlying_withdrawals = x.1 } in
      let first : after ≡ d1 = ground (arith, ex) in
      let rest : (settle_strike lock t ts i after >>= λ d2.
      update_balances_fundlock lock t ts (suc i) ds >>= λ r'. ok (d2 ∷ r'))
          ≡ ok r =
        subst
          (λ z.
            (settle_strike lock t ts i z >>= λ d2.
            update_balances_fundlock lock t ts (suc i) ds >>= λ r'. ok (d2 ∷ r'))
            ≡ ok r)
          (sym first) k1 in
      let (d2, h2, k2) = >>=-eq-ok (settle_strike lock t ts i after) _ rest in
      let (y, hy, ey) =
        >>=-eq-ok
          (settle lock t ts (i * 2 + 1) (i * 2 + 1) (client_balance c.balance_s)
            (withdrawals c.withdrawals_s))
          _ h2 in
      let (r', h3, k3) = >>=-eq-ok (update_balances_fundlock lock t ts (suc i) ds) _ k2 in
      (x, y, r', hx, hy, h3, ground (arith, ey, k3))
