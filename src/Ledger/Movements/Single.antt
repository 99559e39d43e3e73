-- ===== src/Ledger/Movements/Single.antt =====
-- An update of one movement: `UpdateFundMovements::update_fund_movements` on one client's accounts.
use ithaca_smart_contract_an.Base.{
  zero, suc, ◌<◌, ◌≡◌, ℤ, pos, ◌+ℤ◌, List, [], ◌∷◌, refl, ap, ◌∙◌, arith,
}
use ithaca_smart_contract_an.Program.Errors.{ok}
use ithaca_smart_contract_an.Program.Words.{i64_mod}
use ithaca_smart_contract_an.Program.State.{Ledger, ClientBalance, Withdrawals, FundMovementParam}
use ithaca_smart_contract_an.Fundlock.Invariant.{IsQueue}
use ithaca_smart_contract_an.Ledger.Settle.{Transfer, MovementData}
use ithaca_smart_contract_an.Ledger.Settle.Exact.{total}
use ithaca_smart_contract_an.Ledger.Movements.{UpdateFundMovements, handler}
use ithaca_smart_contract_an.Ledger.Movements.Clients.{
  Client, to_data, datas, scaled, underlying, strike,
}
use ithaca_smart_contract_an.Ledger.Movements.Aligned.{IsAligned}
use ithaca_smart_contract_an.Ledger.Movements.Many.{handler-moves, AllMoved, IsMoved}

-- The accounts of one client, in the four places of a movement.
abbrev pub accounts : ClientBalance → ClientBalance → Withdrawals → Withdrawals → MovementData
accounts bu bs wu ws =
    to_data (record { balance_u = bu; balance_s = bs; withdrawals_u = wu; withdrawals_s = ws })

two-IsAligned : (x y : Transfer) → IsAligned (x ∷ y ∷ [])
two-IsAligned x y zero a b ea eb = ground (arith, ea, eb)
two-IsAligned x y (suc i) a b ea eb = ground (arith, eb)

only-IsMoved :
    (l : Ledger) (m : FundMovementParam) (c : Client) (cs : List Client)
    → AllMoved underlying l (m ∷ []) (c ∷ []) cs
    → AllMoved strike l (m ∷ []) (c ∷ []) cs
    → (c' : Client) × (cs ≡ c' ∷ []) × IsMoved underlying l m c c' × IsMoved strike l m c c'
only-IsMoved l m c (c' ∷ []) h k = (c', refl, h.0, k.0)
only-IsMoved l m c [] h k = elim h [ ]
only-IsMoved l m c (c' ∷ d ∷ cs) h k = elim (h.1) [ ]

-- An update of one movement of a client, whose balances i64 holds and whose queues are valid, that
-- succeeds changes the client's claim on each token by exactly the negated amount in the token's
-- smallest units, the ledger's multiplier for one unit of precision, and keeps both queues valid.
pub handler-single :
    (self : UpdateFundMovements) (t : ℤ) (m : FundMovementParam) (bu bs : ClientBalance)
    (wu ws : Withdrawals) (r : List MovementData)
    → handler self t (m ∷ []) (accounts bu bs wu ws ∷ []) ≡ ok r
    → bu.amount < i64_mod
    → bs.amount < i64_mod
    → IsQueue wu.withdrawal_queue wu.active_withdrawals_amount
    → IsQueue ws.withdrawal_queue ws.active_withdrawals_amount
    → (bu' bs' : ClientBalance) × (wu' ws' : Withdrawals) × (r ≡ accounts bu' bs' wu' ws' ∷ [])
      × (pos (total bu' wu')
          ≡ pos (total bu wu) +ℤ scaled m.underlying_amount self.ledger.inner.underlying_multiplier)
      × (pos (total bs' ws')
          ≡ pos (total bs ws) +ℤ scaled m.strike_amount self.ledger.inner.strike_multiplier)
      × IsQueue wu'.withdrawal_queue wu'.active_withdrawals_amount
      × IsQueue ws'.withdrawal_queue ws'.active_withdrawals_amount
handler-single self t m bu bs wu ws r h ltu lts qu qs =
    let c : Client = record {
      balance_u = bu;
      balance_s = bs;
      withdrawals_u = wu;
      withdrawals_s = ws;
    } in
    let (cs, done, moves) = handler-moves self t (m ∷ []) (c ∷ []) r h refl (two-IsAligned _ _) in
    let (c', one, u, s) =
      only-IsMoved self.ledger.inner m c cs
        (moves underlying (record { fits = ltu; queue = qu }, tt))
        (moves strike (record { fits = lts; queue = qs }, tt)) in
    (
      c'.balance_u,
      c'.balance_s,
      c'.withdrawals_u,
      c'.withdrawals_s,
      done ∙ ap datas one,
      u.moved,
      s.moved,
      u.queue,
      s.queue,
    )
