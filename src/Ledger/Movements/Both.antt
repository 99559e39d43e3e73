-- ===== src/Ledger/Movements/Both.antt =====
-- The amounts of the movements of an update: each movement of `update_balances_fundlock` reads two
-- transfers.
use ithaca_smart_contract_an.Base.{
  ℕ, zero, suc, ◌+◌, ◌*◌, ◌≤◌, ◌<◌, ◌≡◌, ℤ, is_zero, false, not, List, [], ◌∷◌, length, get_elem?,
  get_elem?-lt, ap, inl, inr, Option-cases, ◌==◌, All, arith,
}
use ithaca_smart_contract_an.Program.Errors.{
  Result, ok, >>=-eq-ok, expect, err, panic, require, ledger, LedgerError,
}
use ithaca_smart_contract_an.Program.State.{
  Pubkey, Fundlock, FundMovementParam, FundMovementParamOptimized,
}
use ithaca_smart_contract_an.Program.Runtime.{Runtime}
use ithaca_smart_contract_an.Ledger.Settle.{
  AccountData, Transfer, MovementData, settle, settle_underlying, settle_strike,
  update_balances_fundlock,
}
use ithaca_smart_contract_an.Ledger.Movements.{
  UpdateFundMovements, validate_and_count_amounts, initialize_data, process_fund_movement, handler,
  RemainingAccount, borrow, borrow_datas, resolve_client, resolve_clients, update_fund_movements,
  try_accounts,
}
use ithaca_smart_contract_an.Ledger.Movements.Counts.{nonzero, count, length-initialize_data}
use mathlib.Core.Path.{subst, sym, ◌∙◌}

module _ (lock : Fundlock) (unix_timestamp : ℤ) where
  settle-index :
      (ts : List Transfer) (tested index : ℕ) (bd wd : AccountData) (r : AccountData × AccountData)
      → settle lock unix_timestamp ts tested index bd wd ≡ ok r
      → index < length ts
  unfolding settle
  settle-index ts tested index bd wd r h = elim (Option-cases (get_elem? ts index)) [
    | inl e ↦ absurd (ground arith)
    | inr (t, e) ↦ get_elem?-lt ts index e
  ]

  strike-index :
      (ts : List Transfer) (i : ℕ) (d d' : MovementData)
      → settle_strike lock unix_timestamp ts i d ≡ ok d'
      → i * 2 + 1 < length ts
  unfolding settle_strike
  strike-index ts i d d' h =
      let (r, settled, done) = >>=-eq-ok _ _ h in
      settle-index ts (i * 2 + 1) (i * 2 + 1) d.strike_balance d.strike_withdrawals r settled

  -- Every movement of a settlement that succeeds has its two transfers.
  update_balances-index :
      (ts : List Transfer) (i : ℕ) (ds r : List MovementData)
      → update_balances_fundlock lock unix_timestamp ts i ds ≡ ok r
      → i * 2 ≤ length ts
      → (i + length ds) * 2 ≤ length ts
  unfolding update_balances_fundlock
  update_balances-index ts i [] r h le = omega arith
  update_balances-index ts i (d ∷ ds) r h le =
      let (d1, h1, k1) = >>=-eq-ok (settle_underlying lock unix_timestamp ts i d) _ h in
      let (d2, h2, k2) = >>=-eq-ok (settle_strike lock unix_timestamp ts i d1) _ k1 in
      let (r', h3, k3) =
        >>=-eq-ok (update_balances_fundlock lock unix_timestamp ts (suc i) ds) _ k2 in
      let lt = strike-index ts i d1 d2 h2 in
      omega (arith, update_balances-index ts (suc i) ds r' h3 (omega (arith, lt)))

-- Both amounts of a movement are there.
abbrev pub HasBoth : ℤ → ℤ → Type 0
HasBoth a b = (is_zero a ≡ false) × (is_zero b ≡ false)

nonzero-le : (a : ℤ) → nonzero a ≤ 1
nonzero-le a = ground arith

count-le : (ms : List FundMovementParam) → count ms ≤ length ms * 2
count-le [] = omega arith
count-le (m ∷ ms) =
    omega (arith, count-le ms, nonzero-le m.underlying_amount, nonzero-le m.strike_amount)

nonzero-HasBoth : (a b : ℤ) → 2 ≤ nonzero a + nonzero b → HasBoth a b
nonzero-HasBoth a b h = ground arith

count-HasBoth :
    (ms : List FundMovementParam)
    → length ms * 2 ≤ count ms
    → All (λ m. HasBoth m.underlying_amount m.strike_amount) ms
count-HasBoth [] h = tt
count-HasBoth (m ∷ ms) h = (
  nonzero-HasBoth m.underlying_amount m.strike_amount (omega (arith, count-le ms)),
  count-HasBoth ms (omega (arith, nonzero-le m.underlying_amount, nonzero-le m.strike_amount)),
)

pub expect-eq-ok {ℓ} : {A : Type ℓ} (m : Result A) {a : A} → expect m ≡ ok a → m ≡ ok a
expect-eq-ok (ok a) h = h
expect-eq-ok (err e) h = cc
expect-eq-ok panic h = cc

pub handler-HasBoth :
    (self : UpdateFundMovements) (t : ℤ) (ms : List FundMovementParam) (ds r : List MovementData)
    → handler self t ms ds ≡ ok r
    → length ds ≡ length ms
    → All (λ m. HasBoth m.underlying_amount m.strike_amount) ms
unfolding handler process_fund_movement
handler-HasBoth self t ms ds r h same =
    let (u, some_movements, h1) =
      >>=-eq-ok (require (not (length ms == 0)) (ledger LedgerError.empty_fund_movement_array)) _
        h in
    let (c, counted, h2) = >>=-eq-ok (validate_and_count_amounts 0 ms) _ h1 in
    let (ts, made, h3) = >>=-eq-ok (initialize_data self.ledger.inner ms) _ h2 in
    let settled = expect-eq-ok (update_balances_fundlock self.fundlock.inner t ts 0 ds) h3 in
    count-HasBoth ms (
      omega (
        arith,
        update_balances-index self.fundlock.inner t ts 0 ds r settled (omega arith),
        length-initialize_data self.ledger.inner ms ts made,
        same,
      ))

pub length-borrow_datas :
    (borrowed : List Pubkey) (n : ℕ) (rest : List RemainingAccount) (ds : List MovementData)
    → borrow_datas borrowed n rest ≡ ok ds
    → length ds ≡ n
unfolding borrow_datas
length-borrow_datas borrowed zero rest ds h = ground arith
length-borrow_datas borrowed (suc n) (a ∷ b ∷ c ∷ d ∷ rest) ds h =
    let (b1, k1, h1) = >>=-eq-ok (borrow borrowed a) _ h in
    let (b2, k2, h2) = >>=-eq-ok (borrow b1 b) _ h1 in
    let (b3, k3, h3) = >>=-eq-ok (borrow b2 c) _ h2 in
    let (b4, k4, h4) = >>=-eq-ok (borrow b3 d) _ h3 in
    let (es, k5, h5) = >>=-eq-ok (borrow_datas b4 n rest) _ h4 in
    ground (arith, h5, length-borrow_datas b4 n rest es k5)
length-borrow_datas borrowed (suc n) _ ds h = cc

pub resolve_client-amounts :
    (d : MovementData) (m : FundMovementParamOptimized) (p : FundMovementParam)
    → resolve_client d m ≡ ok p
    → (p.underlying_amount ≡ m.underlying_amount) × (p.strike_amount ≡ m.strike_amount)
unfolding resolve_client
resolve_client-amounts d m p h = ground arith

HasBoth-same : {a a' b b' : ℤ} → a ≡ a' → b ≡ b' → HasBoth a b → HasBoth a' b'
HasBoth-same ea eb h = (sym (ap is_zero ea) ∙ h.0, sym (ap is_zero eb) ∙ h.1)

-- The resolved movements have the amounts of the parameters.
pub resolve_clients-HasBoth :
    (ds : List MovementData) (ms : List FundMovementParamOptimized) (ps : List FundMovementParam)
    → resolve_clients ds ms ≡ ok ps
    → length ds ≡ length ms
    → (length ps ≡ length ms)
      × (All (λ m. HasBoth m.underlying_amount m.strike_amount) ps
          → All (λ m. HasBoth m.underlying_amount m.strike_amount) ms)
unfolding resolve_clients
resolve_clients-HasBoth (d ∷ ds) (m ∷ ms) ps h same =
    let (p, h1, k1) = >>=-eq-ok (resolve_client d m) _ h in
    let (qs, h2, k2) = >>=-eq-ok (resolve_clients ds ms) _ k1 in
    let amounts = resolve_client-amounts d m p h1 in
    let (len, rest) = resolve_clients-HasBoth ds ms qs h2 (omega arith) in
    let parts : p ∷ qs ≡ ps = ground (arith, k2) in
    (
      omega (arith, ap length parts, len),
      λ all.
          let both =
            subst (All (λ x. HasBoth x.underlying_amount x.strike_amount)) (sym parts) all in
          (HasBoth-same amounts.0 amounts.1 both.0, rest both.1),
    )
resolve_clients-HasBoth [] [] ps h same = (ground arith, λ all. tt)
resolve_clients-HasBoth [] (m ∷ ms) ps h same = absurd (omega arith)
resolve_clients-HasBoth (d ∷ ds) [] ps h same = absurd (omega arith)

-- An update of fund movements that succeeds has both amounts in every movement.
pub update_fund_movements-HasBoth :
    (rt : Runtime) (ctx : UpdateFundMovements) (t : ℤ) (accounts : List RemainingAccount)
    (ms : List FundMovementParamOptimized) (r : List MovementData)
    → update_fund_movements rt ctx t accounts ms ≡ ok r
    → All (λ m. HasBoth m.underlying_amount m.strike_amount) ms
unfolding update_fund_movements
update_fund_movements-HasBoth rt ctx t accounts ms r h =
    let (u, checked, h1) = >>=-eq-ok (try_accounts rt ctx) _ h in
    let (ds, borrowed, h2) = >>=-eq-ok (borrow_datas [] (length ms) accounts) _ h1 in
    let (ps, resolved, h3) = >>=-eq-ok (resolve_clients ds ms) _ h2 in
    let len = length-borrow_datas [] (length ms) accounts ds borrowed in
    let (same, lift) = resolve_clients-HasBoth ds ms ps resolved len in
    lift (handler-HasBoth ctx t ps ds r h3 (omega (arith, len, same)))
