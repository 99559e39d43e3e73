-- ===== src/Ledger/Movements/Clients.antt =====
-- The accounts of the clients of an update, four for each movement, and the transfers of the
-- movements, two for each.
use ithaca_smart_contract_an.Base.{
  ℕ, ◌<◌, ◌≡◌, ℤ, pos, ◌-ℤ◌, ◌*ℤ◌, List, [], ◌∷◌, length, arith, refl, All, is_zero, false,
}
use ithaca_smart_contract_an.Program.Errors.{ok, >>=-eq-ok}
use ithaca_smart_contract_an.Program.Words.{i64_mod, neg_i64, mul_i64, checked_i64}
use ithaca_smart_contract_an.Program.State.{Ledger, ClientBalance, Withdrawals, FundMovementParam}
use ithaca_smart_contract_an.Fundlock.Invariant.{IsQueue}
use ithaca_smart_contract_an.Ledger.Settle.{client_balance, withdrawals, Transfer, MovementData}
use ithaca_smart_contract_an.Ledger.Settle.Exact.{total}
use ithaca_smart_contract_an.Ledger.Movements.{transfer_of, initialize_data}
use ithaca_smart_contract_an.Ledger.Movements.Both.{HasBoth}

-- The contents of the accounts of one client, on the underlying and on the strike token.
pub record Client : Type 0 where
  pub balance_u : ClientBalance
  pub balance_s : ClientBalance
  pub withdrawals_u : Withdrawals
  pub withdrawals_s : Withdrawals

-- In the four places of a movement.
abbrev pub to_data : Client → MovementData
to_data c = record {
  underlying_balance = client_balance c.balance_u;
  strike_balance = client_balance c.balance_s;
  underlying_withdrawals = withdrawals c.withdrawals_u;
  strike_withdrawals = withdrawals c.withdrawals_s;
}

abbrev pub datas : List Client → List MovementData
datas [] = []
datas (c ∷ cs) = to_data c ∷ datas cs

pub length-datas : (cs : List Client) → length (datas cs) ≡ length cs
length-datas [] = refl
length-datas (c ∷ cs) = omega (arith, length-datas cs)

data-eq : (c c' : Client) → to_data c ≡ to_data c' → c ≡ c'
data-eq c c' e = ground arith

pub datas-eq : (cs cs' : List Client) → datas cs ≡ datas cs' → cs ≡ cs'
datas-eq [] [] e = refl
datas-eq (c ∷ cs) (c' ∷ cs') e =
    let head : to_data c ≡ to_data c' = ground (arith, e) in
    let tail : datas cs ≡ datas cs' = ground (arith, e) in
    let same = data-eq c c' head in let rest = datas-eq cs cs' tail in cc
datas-eq [] (c' ∷ cs') e = ground arith
datas-eq (c ∷ cs) [] e = ground arith

-- The two tokens of a ledger.
pub data Side : Type 0 where
  underlying strike : Side

abbrev pub balance_of : Side → Client → ClientBalance
balance_of underlying c = c.balance_u
balance_of strike c = c.balance_s

abbrev pub withdrawals_of : Side → Client → Withdrawals
withdrawals_of underlying c = c.withdrawals_u
withdrawals_of strike c = c.withdrawals_s

abbrev pub HasQueue : Side → Client → Type 0
HasQueue side c =
    IsQueue (withdrawals_of side c).withdrawal_queue
      (withdrawals_of side c).active_withdrawals_amount

-- i64 holds the balance on one token, and the queue is valid.
pub record IsSound (side : Side) (c : Client) : Type 0 where
  pub fits : (balance_of side c).amount < i64_mod
  pub queue : HasQueue side c

-- What a client can claim, on one token.
abbrev pub claim_of : Side → Client → ℕ
claim_of side c = total (balance_of side c) (withdrawals_of side c)

-- What a movement adds to a claim: the client pays the amount, in the token's smallest units.
abbrev pub scaled : ℤ → ℤ → ℤ
scaled amount multiplier = (pos 0 -ℤ amount) *ℤ multiplier

module _ (l : Ledger) where
  abbrev pub change_u : FundMovementParam → ℤ
  change_u m = scaled m.underlying_amount l.underlying_multiplier

  abbrev pub change_s : FundMovementParam → ℤ
  change_s m = scaled m.strike_amount l.strike_multiplier

  abbrev pub change_of : Side → FundMovementParam → ℤ
  change_of underlying m = change_u m
  change_of strike m = change_s m

  abbrev pub transfer_u : FundMovementParam → Transfer
  transfer_u m = record { client = m.client; token = l.underlying_token; amount = change_u m }

  abbrev pub transfer_s : FundMovementParam → Transfer
  transfer_s m = record { client = m.client; token = l.strike_token; amount = change_s m }

  abbrev pub all_transfers : List FundMovementParam → List Transfer
  all_transfers [] = []
  all_transfers (m ∷ ms) = transfer_u m ∷ transfer_s m ∷ all_transfers ms

  one_transfer :
      (client token : ℕ) (a multiplier : ℤ) (ts : List Transfer)
      → transfer_of client token a multiplier ≡ ok ts
      → is_zero a ≡ false
      → ts ≡ record { client = client; token = token; amount = scaled a multiplier } ∷ []
  unfolding transfer_of neg_i64 mul_i64 checked_i64
  one_transfer client token a multiplier ts h nonzero = ground arith

  -- The transfers of movements with both amounts.
  pub initialize_data-all_transfers :
      (ms : List FundMovementParam) (ts : List Transfer)
      → initialize_data l ms ≡ ok ts
      → All (λ m. HasBoth m.underlying_amount m.strike_amount) ms
      → ts ≡ all_transfers ms
  unfolding initialize_data
  initialize_data-all_transfers [] ts h both = ground arith
  initialize_data-all_transfers (m ∷ ms) ts h both =
      let (us, hu, h1) =
        >>=-eq-ok
          (transfer_of m.client l.underlying_token m.underlying_amount l.underlying_multiplier) _
          h in
      let (ss, hs, h2) =
        >>=-eq-ok (transfer_of m.client l.strike_token m.strike_amount l.strike_multiplier) _ h1 in
      let (rest, hr, h3) = >>=-eq-ok (initialize_data l ms) _ h2 in
      ground (
        arith,
        h3,
        one_transfer m.client l.underlying_token m.underlying_amount l.underlying_multiplier us hu
            both.0.0,
        one_transfer m.client l.strike_token m.strike_amount l.strike_multiplier ss hs both.0.1,
        initialize_data-all_transfers ms rest hr both.1,
      )
