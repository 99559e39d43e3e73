-- ===== src/Ledger/Movements/Counts.antt =====
-- The count of `validate_and_count_amounts` and the transfers that `initialize_data` makes.
use ithaca_smart_contract_an.Base.{
  ℕ, ◌+◌, ◌≡◌, ℤ, is_zero, not, List, [], ◌∷◌, ◌++◌, length, length-append, ◌||◌, ap, arith,
  if◌then◌else◌,
}
use ithaca_smart_contract_an.Program.Errors.{ok, >>=-eq-ok, require, ledger, LedgerError}
use ithaca_smart_contract_an.Program.State.{Pubkey, Ledger, FundMovementParam}
use ithaca_smart_contract_an.Ledger.Settle.{Transfer}
use ithaca_smart_contract_an.Ledger.Movements.{
  validate_and_count_amounts, transfer_of, initialize_data,
}

abbrev pub nonzero : ℤ → ℕ
nonzero a = if is_zero a then 0 else 1

-- The amounts of the movements that are not zero.
abbrev pub count : List FundMovementParam → ℕ
count [] = 0
count (m ∷ ms) = nonzero m.underlying_amount + nonzero m.strike_amount + count ms

validate-count :
    (n : ℕ) (ms : List FundMovementParam) (c : ℕ)
    → validate_and_count_amounts n ms ≡ ok c
    → c ≡ n + count ms
unfolding validate_and_count_amounts
validate-count n [] c h = ground arith
validate-count n (m ∷ ms) c h =
    let (u, guarded, rest) =
      >>=-eq-ok
        (require (not (is_zero m.underlying_amount) || not (is_zero m.strike_amount))
          (ledger LedgerError.empty_amounts_array))
        _ h in
    omega
      (arith, validate-count (n + nonzero m.underlying_amount + nonzero m.strike_amount) ms c rest)

length-transfer_of :
    (client token : Pubkey) (a multiplier : ℤ) (ts : List Transfer)
    → transfer_of client token a multiplier ≡ ok ts
    → length ts ≡ nonzero a
unfolding transfer_of
length-transfer_of client token a multiplier ts h = ground arith

pub length-initialize_data :
    (l : Ledger) (ms : List FundMovementParam) (ts : List Transfer)
    → initialize_data l ms ≡ ok ts
    → length ts ≡ count ms
unfolding initialize_data
length-initialize_data l [] ts h = ground arith
length-initialize_data l (m ∷ ms) ts h =
    let (us, hu, h1) =
      >>=-eq-ok
        (transfer_of m.client l.underlying_token m.underlying_amount l.underlying_multiplier) _ h in
    let (ss, hs, h2) =
      >>=-eq-ok (transfer_of m.client l.strike_token m.strike_amount l.strike_multiplier) _ h1 in
    let (rest, hr, h3) = >>=-eq-ok (initialize_data l ms) _ h2 in
    let same : us ++ ss ++ rest ≡ ts = ground (arith, h3) in
    omega (
      arith,
      ap length same,
      length-append (us ++ ss) rest,
      length-append us ss,
      length-transfer_of m.client l.underlying_token m.underlying_amount l.underlying_multiplier us
          hu,
      length-transfer_of m.client l.strike_token m.strike_amount l.strike_multiplier ss hs,
      length-initialize_data l ms rest hr,
    )

-- A validated list of movements has as many transfers as the validation counts.
pub initialize_data-count :
    (l : Ledger) (ms : List FundMovementParam) (ts : List Transfer) (c : ℕ)
    → validate_and_count_amounts 0 ms ≡ ok c
    → initialize_data l ms ≡ ok ts
    → length ts ≡ c
initialize_data-count l ms ts c v h =
    omega (arith, validate-count 0 ms c v, length-initialize_data l ms ts h)
