-- ===== src/Ledger/Movements/Many.antt =====
-- An update of several movements: `update_balances_fundlock` over all its clients.
use mathlib.Core.Path.{subst}
use ithaca_smart_contract_an.Base.{
  ℕ, suc, ◌+◌, ◌*◌, ◌≡◌, ℤ, pos, ◌+ℤ◌, List, [], ◌∷◌, length, get_elem?, get_elem?-lt,
  get_elem?-some, some, arith, refl, All, ap, ◌∙◌, sym, not, ◌==◌,
}
use ithaca_smart_contract_an.Program.Errors.{ok, >>=-eq-ok, require, ledger, LedgerError}
use ithaca_smart_contract_an.Program.State.{Fundlock, Ledger, FundMovementParam}
use ithaca_smart_contract_an.Ledger.Settle.{
  AccountData, client_balance, withdrawals, Transfer, MovementData, settle,
  update_balances_fundlock,
}
use ithaca_smart_contract_an.Ledger.Funding.Thinned.{IsThinned}
use ithaca_smart_contract_an.Ledger.Settle.Exact.{settle-moves}
use ithaca_smart_contract_an.Ledger.Movements.{
  UpdateFundMovements, handler, process_fund_movement, initialize_data, validate_and_count_amounts,
}
use ithaca_smart_contract_an.Ledger.Movements.Both.{handler-HasBoth, expect-eq-ok}
use ithaca_smart_contract_an.Ledger.Movements.Rounds.{round-steps}
use ithaca_smart_contract_an.Ledger.Movements.Clients.{
  Client, to_data, datas, length-datas, Side, underlying, strike, balance_of, withdrawals_of,
  HasQueue, IsSound, claim_of, change_of, transfer_u, transfer_s, all_transfers,
  initialize_data-all_transfers,
}
use ithaca_smart_contract_an.Ledger.Movements.Aligned.{
  IsAligned, settle-sign, Placed, Placed-all_transfers,
}

-- A client's accounts on one token before and after a movement: the claim changes by exactly the
-- movement, the queue is valid, with no entry added, moved or raised, and nothing else is changed.
pub record IsMoved (side : Side) (l : Ledger) (m : FundMovementParam) (c c' : Client) : Type 0 where
  pub moved : pos (claim_of side c') ≡ pos (claim_of side c) +ℤ change_of l side m
  pub queue : HasQueue side c'
  pub same_balance :
      balance_of side c' ≡ record (balance_of side c) { amount = (balance_of side c').amount }
  pub thinned : IsThinned (withdrawals_of side c) (withdrawals_of side c')

abbrev pub AllMoved : Side → Ledger → List FundMovementParam → List Client → List Client → Type 0
AllMoved side l [] [] [] = Unit
AllMoved side l (m ∷ ms) (c ∷ cs) (c' ∷ cs') = IsMoved side l m c c' × AllMoved side l ms cs cs'
AllMoved side l _ _ _ = ⊥

settled_side :
    (side : Side) (l : Ledger) (m : FundMovementParam) (c c' : Client)
    → balance_of side c' ≡ record (balance_of side c) { amount = (balance_of side c').amount }
    → (pos (claim_of side c') ≡ pos (claim_of side c) +ℤ change_of l side m)
      × HasQueue side c'
      × IsThinned (withdrawals_of side c) (withdrawals_of side c')
    → IsMoved side l m c c'
settled_side side l m c c' same h = record {
  moved = h.0;
  queue = h.1;
  same_balance = same;
  thinned = h.2;
}

module _ (l : Ledger) (lock : Fundlock) (t : ℤ) (ts : List Transfer) (aligned : IsAligned ts) where
  -- One round, on a client's accounts: on the token whose accounts are sound, they are moved.
  round-IsMoved :
      (m : FundMovementParam) (i : ℕ) (c : Client) (x y : AccountData × AccountData)
      → get_elem? ts (i * 2) ≡ some (transfer_u l m)
      → get_elem? ts (i * 2 + 1) ≡ some (transfer_s l m)
      → settle lock t ts i (i * 2) (client_balance c.balance_u) (withdrawals c.withdrawals_u) ≡ ok x
      → settle lock t ts
          (i * 2 + 1)
          (i * 2 + 1)
          (client_balance c.balance_s)
          (withdrawals c.withdrawals_s)
        ≡ ok y
      → (c' : Client) × ((side : Side) → IsSound side c → IsMoved side l m c c')
        × (to_data c' ≡ record {
          underlying_balance = x.0;
          strike_balance = y.0;
          underlying_withdrawals = x.1;
          strike_withdrawals = y.1;
        })
  round-IsMoved m i c x y eu es hx hy =
      let (test, et) = get_elem?-some ts i (omega (arith, get_elem?-lt ts (i * 2) eu)) in
      let same =
        settle-sign lock t ts i (i * 2) test (transfer_u l m) c.balance_u c.withdrawals_u et eu
          (aligned i test (transfer_u l m) et eu) in
      let u =
        settle-moves lock t ts (i * 2) (transfer_u l m) c.balance_u c.withdrawals_u x eu
          (sym same ∙ hx) in
      let s =
        settle-moves lock t ts (i * 2 + 1) (transfer_s l m) c.balance_s c.withdrawals_s y es hy in
      let c' : Client = record {
        balance_u = u.0;
        balance_s = s.0;
        withdrawals_u = u.1;
        withdrawals_s = s.1;
      } in
      (
        c',
        λ side. elim side as (λ k. IsSound k c → IsMoved k l m c c') [
          | underlying ↦ λ sound. settled_side underlying l m c c' u.3 (u.4 sound.fits sound.queue)
          | strike ↦ λ sound. settled_side strike l m c c' s.3 (s.4 sound.fits sound.queue)
        ],
        ground (arith, u.2, s.2),
      )

  update_balances-AllMoved :
      (ms : List FundMovementParam) (i : ℕ) (cs : List Client) (r : List MovementData)
      → update_balances_fundlock lock t ts i (datas cs) ≡ ok r
      → Placed l ts i ms
      → length cs ≡ length ms
      → (cs' : List Client) × (r ≡ datas cs')
        × ((side : Side) → All (IsSound side) cs → AllMoved side l ms cs cs')
  unfolding update_balances_fundlock
  update_balances-AllMoved [] i [] r h placed same = ([], ground (arith, h), λ side sound. tt)
  update_balances-AllMoved (m ∷ ms) i (c ∷ cs) r h placed same =
      let (x, y, r', hx, hy, rest, done) = round-steps lock t ts i c (datas cs) r h in
      let (c', moved, written) = round-IsMoved m i c x y placed.0 placed.1 hx hy in
      let (cs', left, all) =
        update_balances-AllMoved ms (suc i) cs r' rest placed.2 (omega (arith, same)) in
      (
        c' ∷ cs',
        done ∙ ap (λ z. z ∷ r') (sym written) ∙ ap (◌∷◌ (to_data c')) left,
        λ side sound. (moved side sound.0, all side sound.1),
      )
  update_balances-AllMoved [] i (c ∷ cs) r h placed same = absurd (omega (arith, same))
  update_balances-AllMoved (m ∷ ms) i [] r h placed same = absurd (omega (arith, same))

-- A list of movements that is processed is settled by its transfers.
pub handler-steps :
    (self : UpdateFundMovements) (t : ℤ) (ms : List FundMovementParam) (ds r : List MovementData)
    → handler self t ms ds ≡ ok r
    → (ts : List Transfer) × (initialize_data self.ledger.inner ms ≡ ok ts)
      × (update_balances_fundlock self.fundlock.inner t ts 0 ds ≡ ok r)
unfolding handler process_fund_movement
handler-steps self t ms ds r h =
    let (u, some_movements, h1) =
      >>=-eq-ok (require (not (length ms == 0)) (ledger LedgerError.empty_fund_movement_array)) _
        h in
    let (c, counted, h2) = >>=-eq-ok (validate_and_count_amounts 0 ms) _ h1 in
    let (ts, made, h3) = >>=-eq-ok (initialize_data self.ledger.inner ms) _ h2 in
    (ts, made, expect-eq-ok (update_balances_fundlock self.fundlock.inner t ts 0 ds) h3)

-- An update that succeeds, on both tokens together.
pub handler-moves :
    (self : UpdateFundMovements) (t : ℤ) (ms : List FundMovementParam) (cs : List Client)
    (r : List MovementData)
    → handler self t ms (datas cs) ≡ ok r
    → length cs ≡ length ms
    → IsAligned (all_transfers self.ledger.inner ms)
    → (cs' : List Client) × (r ≡ datas cs')
      × ((side : Side) → All (IsSound side) cs → AllMoved side self.ledger.inner ms cs cs')
handler-moves self t ms cs r h same aligned =
    let l = self.ledger.inner in
    let (ts, made, settled) = handler-steps self t ms (datas cs) r h in
    let both = handler-HasBoth self t ms (datas cs) r h (length-datas cs ∙ same) in
    let e = initialize_data-all_transfers l ms ts made both in
    update_balances-AllMoved l self.fundlock.inner t ts (subst IsAligned (sym e) aligned) ms 0 cs r
      settled (subst (λ z. Placed l z 0 ms) (sym e) (Placed-all_transfers l ms [] 0 refl)) same

-- An update of fund movements that succeeds, with one client for each movement, whose accounts on
-- one of the two tokens have balances that i64 holds and valid queues, and with transfers whose
-- tested amounts have the signs of the applied ones, changes every claim on this token by exactly
-- the movement, the negated amount in the token's smallest units, keeps all queues valid, their
-- entries those of before in their order and with their times, some lowered and some used up, and
-- changes nothing else of these accounts but the amounts of the balances and the withdrawals.
pub handler-AllMoved :
    (side : Side) (self : UpdateFundMovements) (t : ℤ) (ms : List FundMovementParam)
    (cs : List Client) (r : List MovementData)
    → handler self t ms (datas cs) ≡ ok r
    → length cs ≡ length ms
    → All (IsSound side) cs
    → IsAligned (all_transfers self.ledger.inner ms)
    → (cs' : List Client) × (r ≡ datas cs') × AllMoved side self.ledger.inner ms cs cs'
handler-AllMoved side self t ms cs r h same sound aligned =
    let (cs', done, moved) = handler-moves self t ms cs r h same aligned in
    (cs', done, moved side sound)
