-- ===== src/Ledger/Movements/OneAmount.antt =====
-- A movement with one amount that is zero: `validate_and_count_amounts` against the settlement.
use ithaca_smart_contract_an.Base.{
  ℕ, ◌⊎◌, ◌+◌, ◌≡◌, ℤ, is_zero, false, List, [], ◌∷◌, length, All, ap, ◌∙◌, arith,
}
use mathlib.Core.Path.{subst}
use ithaca_smart_contract_an.Program.Errors.{ok, >>=-eq-ok}
use ithaca_smart_contract_an.Program.State.{FundMovementParam, FundMovementParamOptimized}
use ithaca_smart_contract_an.Program.Runtime.{Runtime}
use ithaca_smart_contract_an.Ledger.Settle.{MovementData}
use ithaca_smart_contract_an.Ledger.Movements.{
  UpdateFundMovements, RemainingAccount, validate_and_count_amounts, borrow_datas, resolve_client,
  resolve_clients, update_fund_movements,
}
use ithaca_smart_contract_an.Ledger.Movements.Counts.{nonzero, count}
use ithaca_smart_contract_an.Ledger.Movements.Both.{
  HasBoth, resolve_client-amounts, update_fund_movements-HasBoth,
}

-- An amount of a movement is there.
abbrev pub HasOne : ℤ → ℤ → Type 0
HasOne a b = (is_zero a ≡ false) ⊎ (is_zero b ≡ false)

validate-HasOne :
    (n : ℕ) (ps : List FundMovementParam)
    → All (λ p. HasOne p.underlying_amount p.strike_amount) ps
    → validate_and_count_amounts n ps ≡ ok (n + count ps)
unfolding validate_and_count_amounts
validate-HasOne n [] h = ground arith
validate-HasOne n (p ∷ ps) h =
    let rest = validate-HasOne (n + nonzero p.underlying_amount + nonzero p.strike_amount) ps h.1 in
    ground (arith, rest, h.0)

validate-HasOne-zero :
    (ps : List FundMovementParam)
    → All (λ p. HasOne p.underlying_amount p.strike_amount) ps
    → validate_and_count_amounts 0 ps ≡ ok (count ps)
validate-HasOne-zero ps h = validate-HasOne 0 ps h ∙ ap ok (omega arith)

-- The resolved movements have the amounts of the parameters.
resolve_clients-HasOne :
    (ds : List MovementData) (ms : List FundMovementParamOptimized) (ps : List FundMovementParam)
    → resolve_clients ds ms ≡ ok ps
    → All (λ m. HasOne m.underlying_amount m.strike_amount) ms
    → All (λ p. HasOne p.underlying_amount p.strike_amount) ps
unfolding resolve_clients
resolve_clients-HasOne (d ∷ ds) (m ∷ ms) ps h all =
    let (p, h1, k1) = >>=-eq-ok (resolve_client d m) _ h in
    let (qs, h2, k2) = >>=-eq-ok (resolve_clients ds ms) _ k1 in
    let rest = resolve_clients-HasOne ds ms qs h2 all.1 in
    let amounts = resolve_client-amounts d m p h1 in
    let parts : p ∷ qs ≡ ps = ground (arith, k2) in
    subst (All (λ x. HasOne x.underlying_amount x.strike_amount)) parts
      (rw (amounts.0, amounts.1) (all.0), rest)
resolve_clients-HasOne [] ms ps h all = ground arith
resolve_clients-HasOne (d ∷ ds) [] ps h all = ground arith

-- An update whose four accounts of each movement are there and belong to one client, and whose
-- movements all have an amount that is not zero, but some not both, passes the validation, which
-- counts the amounts that are not zero; and it does not succeed.
pub update_fund_movements-HasOne :
    (rt : Runtime) (ctx : UpdateFundMovements) (t : ℤ) (accounts : List RemainingAccount)
    (ms : List FundMovementParamOptimized) (ds r : List MovementData) (ps : List FundMovementParam)
    → borrow_datas [] (length ms) accounts ≡ ok ds
    → resolve_clients ds ms ≡ ok ps
    → All (λ m. HasOne m.underlying_amount m.strike_amount) ms
    → ¬ All (λ m. HasBoth m.underlying_amount m.strike_amount) ms
    → (validate_and_count_amounts 0 ps ≡ ok (count ps))
      × (¬ (update_fund_movements rt ctx t accounts ms ≡ ok r))
update_fund_movements-HasOne rt ctx t accounts ms ds r ps borrowed resolved some_amount not_both = (
  validate-HasOne-zero ps (resolve_clients-HasOne ds ms ps resolved some_amount),
  λ h. not_both (update_fund_movements-HasBoth rt ctx t accounts ms r h),
)
